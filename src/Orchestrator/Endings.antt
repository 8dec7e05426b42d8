-- ===== src/Orchestrator/Endings.antt =====
-- `handle` and `resume` of the orchestrator always return, with a result that accounts for the
-- work and a run whose row has the status of the result.
use restaurant_sahayak.Base.{
  ℕ, ◌≡◌, refl, ap, none, some, ◌∷◌, map, Text, find, update, find-id, find-update_self,
}
use restaurant_sahayak.Errors.{Result, ok, err}
use restaurant_sahayak.Exec.{Returns, pure, throw, after, ◌>>◌}
use restaurant_sahayak.Models.{Session, Action}
use restaurant_sahayak.Models.Runs.{
  AgentRun, RunStatus, Role, MessageContent, Summary, agent_run_row,
}
use restaurant_sahayak.AgentRuns.{log_message, complete_run, complete_found, ended}
use restaurant_sahayak.ToolCalling.{AgentStatus}
use restaurant_sahayak.Orchestrator.State.{Report}
use restaurant_sahayak.Orchestrator.Nodes.{Orchestrator}
use restaurant_sahayak.Orchestrator.Graph.{GraphOutcome, done, interrupted}
use restaurant_sahayak.Orchestrator.Service.{
  Process, keep_checkpoint, invoke, record_message, record_completion, record_of, result_of,
  pause_of, response_of, finalize, failure_summary, failure_of, finalize_error, conclude,
}
use restaurant_sahayak.Orchestrator.Results.{
  HasStatus, PausesSound, Ends, IsSound, done-Accounts, pause-Accounts,
}

-- The process after `complete_run` on a row that is there
abbrev pub completed_as : ℕ → RunStatus → Text → Process → Process
completed_as run_id status summary p = record p {
  session = record p.session {
    agent_runs =
        update run_id (ended status (some (Summary.stated summary)) p.session.now)
          p.session.agent_runs;
  };
}

pub recorded :
    (run_id : ℕ) (status : RunStatus) (summary : Text) (p : Process) (r : AgentRun)
    → find run_id p.session.agent_runs ≡ some r
    → record_completion run_id status summary p ≡ (ok tt, completed_as run_id status summary p)
unfolding record_completion complete_run complete_found
recorded run_id status summary p r e = rw e (
    ap
      (λ k. (
        ok tt,
        record p {
          session = record p.session {
            agent_runs =
                update k (ended status (some (Summary.stated summary)) p.session.now)
                  p.session.agent_runs;
          };
        },
      ))
      (find-id run_id p.session.agent_runs r e))

completed_as-HasStatus :
    (run_id : ℕ) (status : RunStatus) (summary : Text) (p : Process) (r : AgentRun)
    → find run_id p.session.agent_runs ≡ some r
    → HasStatus run_id status (completed_as run_id status summary p).session
completed_as-HasStatus run_id status summary p r e = (
  ended status (some (Summary.stated summary)) p.session.now r,
  find-update_self run_id (ended status (some (Summary.stated summary)) p.session.now)
      p.session.agent_runs r (λ x. refl) e,
  refl,
)

module _ (o : Orchestrator) (run_id : ℕ) where
  pub finalize_error-Ends :
      (p : Process)
      → HasStatus run_id RunStatus.running p.session
      → PausesSound o p
      → Ends o run_id (finalize_error run_id p)
  unfolding finalize_error
  finalize_error-Ends p (r, found, _) pauses = (
    failure_of run_id,
    completed_as run_id RunStatus.failed failure_summary p,
    ap (after (λ _. pure (failure_of run_id)) throw)
        (recorded run_id RunStatus.failed failure_summary p r found),
    refl,
    refl,
    completed_as-HasStatus run_id RunStatus.failed failure_summary p r found,
    pauses,
  )

  -- The session with one more message
  abbrev logged : MessageContent → Process → Process
  logged content p = record p {
    session = (log_message run_id Role.assistant none content p.session).1;
  }

  finalize-Ends :
      (outcome : GraphOutcome) (p : Process)
      → IsSound o outcome
      → HasStatus run_id RunStatus.running p.session
      → PausesSound o p
      → Ends o run_id (finalize run_id outcome p)
  unfolding finalize record_message log_message
  finalize-Ends (interrupted st) p sound running pauses = (
    pause_of run_id st,
    logged (MessageContent.awaiting_approval st.pending_approval_id st.pending_approval_agent) p,
    refl,
    refl,
    pause-Accounts o run_id st sound,
    running,
    pauses,
  )
  finalize-Ends (done st) p sound (r, found, _) pauses =
      let summary = response_of st.final_response in
      let result =
        result_of run_id AgentStatus.completed (Report.stated summary)
          (map record_of st.invocations) in
      let p' = logged (MessageContent.answer summary) p in
      (
        result,
        completed_as run_id RunStatus.completed summary p',
        ap (after (λ _. pure result) throw)
            (recorded run_id RunStatus.completed summary p' r found),
        refl,
        done-Accounts o run_id st (Report.stated summary) sound,
        completed_as-HasStatus run_id RunStatus.completed summary p' r found,
        pauses,
      )

  -- A walk on a thread, with the record of its end
  pub invoke-Ends :
      (m : Action GraphOutcome) (p : Process)
      → Returns (IsSound o) (m p.session)
      → HasStatus run_id RunStatus.running (m p.session).1
      → PausesSound o p
      → Ends o run_id (conclude run_id (invoke run_id m) p)
  unfolding conclude invoke keep_checkpoint
  invoke-Ends m p = walked (m p.session)
    where
      walked :
          (out : Result GraphOutcome × Session)
          → Returns (IsSound o) out
          → HasStatus run_id RunStatus.running out.1
          → PausesSound o p
          → Ends o run_id (
              after
                (finalize run_id)
                (λ e. finalize_error run_id)
                (after
                  (λ outcome. keep_checkpoint run_id outcome >> pure outcome)
                  throw
                  (out.0, record p { session = out.1 })))
      walked (ok (done st), s) sound running pauses =
          finalize-Ends (done st) (record p { session = s }) sound running pauses
      walked (ok (interrupted st), s) sound running pauses =
          finalize-Ends (interrupted st)
            (record p {
              checkpoints = record { thread_id = run_id; state = st } ∷ p.checkpoints;
              session = s;
            })
            sound running (sound, pauses)
      walked (err e, s) _ running pauses =
          finalize_error-Ends (record p { session = s }) running pauses
