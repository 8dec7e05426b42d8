-- ===== src/ToolCalling/Sessions.antt =====
-- Invariants of the session across a whole run of an agent: what its tools keep, if it says nothing
-- of agent runs and messages.
use restaurant_sahayak.Base.{ℕ, ◌+◌, ◌≤◌, Option, some, List, find, arith, String, none}
use restaurant_sahayak.Exec.{Keeps, Keeps-bind, Keeps-pure, Keeps-gets, Keeps-try_except, gets}
use restaurant_sahayak.Models.{Session}
use restaurant_sahayak.Models.Runs.{
  AgentRun, AgentMessage, RunStatus, Role, MessageContent, Summary, agent_run_row,
}
use restaurant_sahayak.AgentRuns.{start_run, log_message, complete_run, complete_found}
use restaurant_sahayak.ToolCalling.{
  Agent, Task, AgentStatus, context_of, run_status, summary_of, in_session, attempt, conclude, work,
  handle,
}
use restaurant_sahayak.ToolCalling.Outcome.{started}
use restaurant_sahayak.ToolCalling.Preserves.{ToolsKeep, Within, attempt-Keeps}

-- `P` says nothing of agent runs and messages, and fresh identities do not disturb it.
abbrev pub IgnoresRuns : (Session → Type 0) → Type 0
IgnoresRuns P =
    (s : Session) (runs : List AgentRun) (messages : List AgentMessage) (n : ℕ)
    → s.next_id ≤ n
    → P s
    → P (record s { agent_runs = runs; messages = messages; next_id = n })

module _ (P : Session → Type 0) (ignores : IgnoresRuns P) where
  pub log_message-Keeps :
      (run_id : ℕ) (role : Role) (tool_name : Option String) (content : MessageContent)
      → Keeps P (log_message run_id role tool_name content)
  unfolding log_message
  log_message-Keeps run_id role tool_name content = record {
    at = λ s h. ignores s s.agent_runs _ (s.next_id + 1) (omega arith) h;
  }

  pub complete_found-Keeps :
      (run_id : ℕ) (status : RunStatus) (summary : Option Summary) (found : Option AgentRun)
      → Keeps P (complete_found run_id status summary found)
  unfolding complete_found
  complete_found-Keeps run_id status summary none = record { at = λ s h. h }
  complete_found-Keeps run_id status summary (some r) = record {
    at = λ s h. ignores s _ s.messages s.next_id (omega arith) h;
  }

  conclude-Keeps : (run_id : ℕ) (status : AgentStatus) → Keeps (Within P) (conclude run_id status)
  unfolding conclude complete_run
  conclude-Keeps run_id status =
      Keeps-bind (Within P) (gets (λ w. w.state)) _ (Keeps-gets _ (λ w. w.state)) λ st.
        Keeps-bind (Within P) _ _
          (Keeps-try_except (Within P)
            (in_session (complete_run run_id (run_status status) (some (summary_of st)))) _ _
            (record {
              at = λ w h.
                  (complete_found-Keeps run_id (run_status status) (some (summary_of st))
                      (find run_id w.session.agent_runs)).at
                    w.session h;
            })
            (λ u. Keeps-pure _ u) (λ e. Keeps-pure _ tt))
          λ _. Keeps-pure _ _

  -- A run of an agent keeps what its tools keep, whatever the model answers.
  pub handle-Keeps : (agent : Agent) (t : Task) → ToolsKeep P agent.tools → Keeps P (handle agent t)
  unfolding handle start_run work log_message
  handle-Keeps agent t tools = record {
    at = λ s h.
        (Keeps-bind (Within P) (attempt agent (context_of agent t s.next_id) s.next_id)
            (conclude s.next_id)
            (attempt-Keeps P log_message-Keeps agent tools (context_of agent t s.next_id) s.next_id)
            (λ status. conclude-Keeps s.next_id status)).at
          (started agent t s) (ignores s _ _ (s.next_id + 2 + 1) (omega arith) h);
  }
