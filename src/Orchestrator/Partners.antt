-- ===== src/Orchestrator/Partners.antt =====
-- The partners of the orchestrator as the program wires them: specialists that are tool-calling
-- agents, and the approval service. They leave the row of the orchestrator's run alone.
use restaurant_sahayak.Base.{
  ℕ, ◌≡◌, refl, ◌∙◌, sym, ◌≢◌, String, Option, none, some, arith, find, find-update, find-append,
  find-id,
}
use mathlib.Core.Path.{subst}
use mathlib.Core.Option
use restaurant_sahayak.Exec.{Keeps, Keeps-bind, Keeps-pure, Keeps-gets, Keeps-try_except, gets}
use restaurant_sahayak.Models.{Session}
use restaurant_sahayak.Models.Approvals.{Decision, approved, rejected}
use restaurant_sahayak.Models.Runs.{
  AgentRun, RunStatus, Role, MessageContent, Summary, agent_run_row,
}
use restaurant_sahayak.AgentRuns.{
  start_run, log_message, complete_run, complete_found, ended, new_run,
}
use restaurant_sahayak.Approvals.{ApprovalService, save, record_result}
use restaurant_sahayak.Approvals.Preserves.{
  IsLocal, PartnersKeep, Decides, approve-Keeps, reject-Keeps,
}
use restaurant_sahayak.ToolCalling.{
  Agent, Task, AgentStatus, run_of, context_of, run_status, summary_of, in_session, attempt,
  conclude, work, handle,
}
use restaurant_sahayak.ToolCalling.Outcome.{started}
use restaurant_sahayak.ToolCalling.Preserves.{ToolsKeep, Within, attempt-Keeps}
use restaurant_sahayak.Orchestrator.Nodes.{Orchestrator, decide_approval}
use restaurant_sahayak.Orchestrator.Results.{IsRunning}
use restaurant_sahayak.Orchestrator.Preserves.{SpecialistsKeep, ServicesKeep}

IsRunning-local : (k : ℕ) → IsLocal (IsRunning k)
IsRunning-local k = record {
  events = λ s es n le h. (h.0, omega arith);
  memories = λ s ms n le h. (h.0, omega arith);
  clock = λ s t n le h. (h.0, omega arith);
}

IsRunning-Decides : (k : ℕ) → Decides (IsRunning k)
unfolding save record_result
IsRunning-Decides k = record {
  approves = λ s id user a e pend h. h;
  rejects = λ s id user a e pend h. h;
  records = λ id result. record { at = λ s h. h };
}

pub decide_approval-IsRunning :
    (k : ℕ) (service : ApprovalService)
    → PartnersKeep (IsRunning k) service
    → (id user : ℕ) (decision : Decision)
    → Keeps (IsRunning k) (decide_approval service id user decision)
unfolding decide_approval
decide_approval-IsRunning k service partners id user approved =
    approve-Keeps service (IsRunning k) (IsRunning-local k) partners (IsRunning-Decides k) id user
decide_approval-IsRunning k service partners id user rejected =
    reject-Keeps service (IsRunning k) (IsRunning-local k) partners (IsRunning-Decides k) id user
      none

-- An end that is written on another run
complete_found-IsRunning :
    (k run_id : ℕ) (status : RunStatus) (summary : Option Summary) (found : Option AgentRun)
    (s : Session)
    → run_id ≢ k
    → find run_id s.agent_runs ≡ found
    → IsRunning k s
    → IsRunning k (complete_found run_id status summary found s).1
unfolding complete_found
complete_found-IsRunning k run_id status summary none s other e h = h
complete_found-IsRunning k run_id status summary (some r) s other e
      ((row, found, running), issued) =
    (
      (
        row,
        find-update r.id k (ended status summary s.now) s.agent_runs (λ x. refl)
            ∙ ground (arith, find-id run_id s.agent_runs r e, found),
        running,
      ),
      issued,
    )

conclude-IsRunning :
    (k run_id : ℕ) (status : AgentStatus)
    → run_id ≢ k
    → Keeps (Within (IsRunning k)) (conclude run_id status)
unfolding conclude complete_run
conclude-IsRunning k run_id status other =
    Keeps-bind (Within (IsRunning k)) (gets (λ w. w.state)) _ (Keeps-gets _ (λ w. w.state)) λ st.
      Keeps-bind (Within (IsRunning k)) _ _
        (Keeps-try_except (Within (IsRunning k))
          (in_session (complete_run run_id (run_status status) (some (summary_of st)))) _ _
          (record {
            at = λ w h.
                complete_found-IsRunning k run_id (run_status status) (some (summary_of st))
                  (find run_id w.session.agent_runs) w.session other refl h;
          })
          (λ u. Keeps-pure _ u) (λ e. Keeps-pure _ tt))
        λ _. Keeps-pure _ _

log_message-IsRunning :
    (k run_id : ℕ) (role : Role) (tool_name : Option String) (content : MessageContent)
    → Keeps (IsRunning k) (log_message run_id role tool_name content)
unfolding log_message
log_message-IsRunning k run_id role tool_name content = record { at = λ s h. (h.0, omega arith) }

-- A run of a specialist leaves an earlier run running.
pub handle-IsRunning :
    (k : ℕ) (agent : Agent) (t : Task)
    → ToolsKeep (IsRunning k) agent.tools
    → Keeps (IsRunning k) (handle agent t)
unfolding handle start_run work log_message
handle-IsRunning k agent t tools = record {
  at = λ s h.
      (Keeps-bind (Within (IsRunning k)) (attempt agent (context_of agent t s.next_id) s.next_id)
          (conclude s.next_id)
          (attempt-Keeps (IsRunning k) (log_message-IsRunning k) agent tools
            (context_of agent t s.next_id) s.next_id)
          (λ status. conclude-IsRunning k s.next_id status (λ e. absurd (omega arith)))).at
        (started agent t s)
        (
          (h.0.0, find-append k s.agent_runs (new_run (run_of agent t) s) h.0.0 h.0.1, h.0.2),
          omega arith,
        );
}

-- The orchestrator as it is built: its specialists are tool-calling agents.
abbrev pub AreAgents : Orchestrator → (String → Option Agent) → Type 0
AreAgents o agents =
    (name : String) → o.specialists name ≡ Option.map (λ agent. handle agent) (agents name)

-- The specialists keep what the agents keep.
pub agents-SpecialistsKeep :
    (P : Session → Type 0) (o : Orchestrator) (agents : String → Option Agent)
    → AreAgents o agents
    → ((name : String) (agent : Agent)
        → agents name ≡ some agent
        → (t : Task) → Keeps P (handle agent t))
    → SpecialistsKeep P o
agents-SpecialistsKeep P o agents built keep name specialist e t =
    by_agent (agents name) refl (sym (built name) ∙ e)
  where
    by_agent :
        (found : Option Agent)
        → agents name ≡ found
        → Option.map (λ agent. handle agent) found ≡ some specialist
        → Keeps P (specialist t)
    by_agent none e same = absurd (cc same)
    by_agent (some agent) e same =
        let equal : (λ (t : Task). handle agent t) ≡ specialist = cc same in
        subst (λ f. Keeps P (f t)) equal (keep name agent e t)

-- Tool-calling agents and an approval service leave the run alone, if the agents' tools, the
-- executors and the event handlers do.
pub agents-ServicesKeep :
    (k : ℕ) (o : Orchestrator) (agents : String → Option Agent)
    → AreAgents o agents
    → ((name : String) (agent : Agent)
        → agents name ≡ some agent
        → ToolsKeep (IsRunning k) agent.tools)
    → ((service : ApprovalService)
        → o.approval_service ≡ some service
        → PartnersKeep (IsRunning k) service)
    → ServicesKeep (IsRunning k) o
agents-ServicesKeep k o agents built tools partners = record {
  specialists =
      agents-SpecialistsKeep (IsRunning k) o agents built
        (λ name agent e t. handle-IsRunning k agent t (tools name agent e));
  decisions = λ service e id user decision.
      decide_approval-IsRunning k service (partners service e) id user decision;
}
