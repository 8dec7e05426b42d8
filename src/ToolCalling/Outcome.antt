-- ===== src/ToolCalling/Outcome.antt =====
-- `handle` always returns, and the run's row says how it ended.
use restaurant_sahayak.Base.{
  ℕ, suc, ◌≡◌, refl, ap, ◌∙◌, String, Option, none, some, find, find-id, find-update_self, find_new,
  update,
}
use restaurant_sahayak.Errors.{Result, ok, err}
use restaurant_sahayak.Exec.{
  Keeps, Keeps-bind, Keeps-gets, Keeps-pure, Keeps-try_except, gets, goes_on, pure, after, ◌>>◌,
}
use restaurant_sahayak.Models.{Session}
use restaurant_sahayak.Models.Runs.{
  AgentRun, RunStatus, Role, MessageContent, Summary, internal_error, agent_run_row,
}
use restaurant_sahayak.Settings.{ToolContext}
use restaurant_sahayak.AgentRuns.{
  new_run, start_run, log_message, complete_found, complete_run, ended,
}
use restaurant_sahayak.AgentRuns.Sequence.{SequencesUnique, log_message-SequencesUnique}
use restaurant_sahayak.ToolCalling.{
  Agent, AgentResult, AgentStatus, Task, Working, in_session, with_state, iterate, attempt,
  conclude, run_status, summary_of, run_of, context_of, opening, initial_state, work, handle,
}
use restaurant_sahayak.ToolCalling.Preserves.{ToolsKeep, Within, attempt-Keeps}

-- The run has its row.
abbrev pub HasRun : ℕ → Session → Type 0
HasRun run_id s = (r : AgentRun) × (find run_id s.agent_runs ≡ some r)

-- A run that ended with this result: its row has the status and the summary.
abbrev pub Recorded : AgentResult → Session → Type 0
Recorded result s =
    (r : AgentRun) × (find result.agent_run_id s.agent_runs ≡ some r)
    × (r.status ≡ run_status result.status)
    × (r.outcome_summary ≡ some result.summary)

logs-HasRun :
    (k run_id : ℕ) (role : Role) (tool_name : Option String) (content : MessageContent)
    → Keeps (HasRun k) (log_message run_id role tool_name content)
unfolding log_message
logs-HasRun k run_id role tool_name content = record { at = λ s h. h }

-- The loop in its `try` returns a status.
attempted :
    (agent : Agent) (context : ToolContext) (run_id : ℕ) (w : Working)
    → (status : AgentStatus) × ((attempt agent context run_id w).0 ≡ ok status)
unfolding attempt
attempted agent context run_id w =
    caught (iterate (suc agent.max_iterations) agent context run_id w)
  where
    caught :
        (out : Result AgentStatus × Working)
        → (status : AgentStatus) × ((after pure
              (λ e.
                with_state (λ st. record st { error = some internal_error })
                >> pure AgentStatus.error)
              out).0
            ≡ ok status)
    caught (ok status, w') = (status, refl)
    caught (err e, w') = (AgentStatus.error, refl)

-- The session after `complete_run`
abbrev with_end : ℕ → AgentStatus → Working → Working
with_end run_id status w = record w {
  session = record w.session {
    agent_runs =
        update run_id (ended (run_status status) (some (summary_of w.state)) w.session.now)
          w.session.agent_runs;
  };
}

abbrev result_of : ℕ → AgentStatus → Working → AgentResult
result_of run_id status w = record {
  agent_run_id = run_id;
  status = status;
  summary = summary_of w.state;
  tool_calls = w.state.tool_calls;
  error = w.state.error;
}

concluded :
    (run_id : ℕ) (status : AgentStatus) (w : Working) (r : AgentRun)
    → find run_id w.session.agent_runs ≡ some r
    → conclude run_id status w ≡ (ok (result_of run_id status w), with_end run_id status w)
unfolding conclude complete_run complete_found
concluded run_id status w r e = rw e (
    ap
      (λ k. (
        ok (result_of run_id status w),
        record w {
          session = record w.session {
            agent_runs =
                update k (ended (run_status status) (some (summary_of w.state)) w.session.now)
                  w.session.agent_runs;
          };
        },
      ))
      (find-id run_id w.session.agent_runs r e))

-- The objects that the run starts to work on
abbrev pub started : Agent → Task → Session → Working
started agent t s = record {
  state = initial_state;
  messages = opening agent t s.now;
  session =
      (log_message s.next_id Role.user none (MessageContent.task t.task)
        (start_run (run_of agent t) s).1).1;
}

worked :
    (agent : Agent) (t : Task) (run_id : ℕ) (w : Working)
    → ToolsKeep (HasRun run_id) agent.tools
    → HasRun run_id w.session
    → (result : AgentResult) × (w' : Working) × (work agent t run_id w ≡ (ok result, w'))
      × (result.agent_run_id ≡ run_id)
      × Recorded result w'.session
unfolding work
worked agent t run_id w tools here =
    let (status, ended_as) = attempted agent (context_of agent t run_id) run_id w in
    let w' = (attempt agent (context_of agent t run_id) run_id w).1 in
    let (r, found) =
      (attempt-Keeps (HasRun run_id) (logs-HasRun run_id) agent tools (context_of agent t run_id)
          run_id).at
        w here in
    (
      result_of run_id status w',
      with_end run_id status w',
      goes_on (conclude run_id) status (attempt agent (context_of agent t run_id) run_id w) ended_as
          ∙ concluded run_id status w' r found,
      refl,
      (
        ended (run_status status) (some (summary_of w'.state)) w'.session.now r,
        find-update_self run_id
            (ended (run_status status) (some (summary_of w'.state)) w'.session.now)
            w'.session.agent_runs r (λ x. refl) found,
        refl,
        refl,
      ),
    )

-- `handle` always returns, whatever the model answers and whichever tools raise: an exception of
-- the loop becomes a result with the status "error". Afterwards the run's row is "failed" if the
-- result's status is "error" and "completed" otherwise, never still "running", with the result's
-- summary, if the tools leave the row of the run in place.
pub handle_records :
    (agent : Agent) (t : Task) (s : Session)
    → ToolsKeep (HasRun s.next_id) agent.tools
    → (result : AgentResult) × (s' : Session) × (handle agent t s ≡ (ok result, s'))
      × (result.agent_run_id ≡ s.next_id)
      × Recorded result s'
unfolding handle start_run log_message
handle_records agent t s tools =
    let (result, w', worked_so, same, recorded) =
      worked agent t s.next_id (started agent t s) tools
        (find_new s.next_id s.agent_runs (new_run (run_of agent t) s) refl) in
    (result, w'.session, rw worked_so refl, same, recorded)

complete_found-SequencesUnique :
    (run_id : ℕ) (status : RunStatus) (summary : Option Summary) (found : Option AgentRun)
    → Keeps SequencesUnique (complete_found run_id status summary found)
unfolding complete_found
complete_found-SequencesUnique run_id status summary none = record { at = λ s h. h }
complete_found-SequencesUnique run_id status summary (some r) = record { at = λ s h. h }

conclude-SequencesUnique :
    (run_id : ℕ) (status : AgentStatus) → Keeps (Within SequencesUnique) (conclude run_id status)
unfolding conclude complete_run
conclude-SequencesUnique run_id status =
    Keeps-bind (Within SequencesUnique) (gets (λ w. w.state)) _ (Keeps-gets _ (λ w. w.state)) λ st.
      Keeps-bind (Within SequencesUnique) _ _
        (Keeps-try_except (Within SequencesUnique)
          (in_session (complete_run run_id (run_status status) (some (summary_of st)))) _ _
          (record {
            at = λ w h.
                (complete_found-SequencesUnique run_id (run_status status) (some (summary_of st))
                    (find run_id w.session.agent_runs)).at
                  w.session h;
          })
          (λ u. Keeps-pure _ u) (λ e. Keeps-pure _ tt))
        λ _. Keeps-pure _ _

-- A whole run, with every message of its audit trail, leaves the sequence numbers of each agent run
-- distinct, if they were distinct before and the tools keep that: no log entry can violate the
-- unique index.
pub handle-SequencesUnique :
    (agent : Agent) (t : Task)
    → ToolsKeep SequencesUnique agent.tools
    → Keeps SequencesUnique (handle agent t)
unfolding handle start_run work log_message
handle-SequencesUnique agent t tools = record {
  at = λ s h.
      (Keeps-bind (Within SequencesUnique) (attempt agent (context_of agent t s.next_id) s.next_id)
          (conclude s.next_id)
          (attempt-Keeps SequencesUnique log_message-SequencesUnique agent tools
            (context_of agent t s.next_id) s.next_id)
          (conclude-SequencesUnique s.next_id)).at
        (started agent t s)
        ((log_message-SequencesUnique s.next_id Role.user none (MessageContent.task t.task)).at
          (start_run (run_of agent t) s).1 h);
}
