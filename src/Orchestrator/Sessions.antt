-- ===== src/Orchestrator/Sessions.antt =====
-- Invariants of the session across a whole call of the orchestrator.
use restaurant_sahayak.Base.{ℕ, ◌+◌, none, some, find, arith, Text}
use restaurant_sahayak.Exec.{Keeps, Keeps-bind, Keeps-pure, Keeps-try_except}
use restaurant_sahayak.Models.{Session, Action}
use restaurant_sahayak.Models.Runs.{RunStatus, Role, MessageContent, Summary, agent_run_row}
use restaurant_sahayak.AgentRuns.{start_run, log_message, complete_run}
use restaurant_sahayak.ToolCalling.Sessions.{IgnoresRuns, log_message-Keeps, complete_found-Keeps}
use restaurant_sahayak.Orchestrator.Nodes.{Orchestrator}
use restaurant_sahayak.Orchestrator.Graph.{identify_scope, GraphOutcome, done, interrupted, walk}
use restaurant_sahayak.Orchestrator.Service.{
  Process, Procedure, Request, in_session, keep_checkpoint, invoke, record_message,
  record_completion, finalize, finalize_error, conclude, handle, run_of, initial_state,
  recursion_limit, failure_summary,
}
use restaurant_sahayak.Orchestrator.Preserves.{SpecialistsKeep, walk-Keeps}

-- `P` of the session of the process
abbrev pub Inside : (Session → Type 0) → Process → Type 0
Inside P p = P p.session

module _ (P : Session → Type 0) (ignores : IgnoresRuns P) where
  in_session-Keeps : {A : Type 0} (m : Action A) → Keeps P m → Keeps (Inside P) (in_session m)
  in_session-Keeps m k = record { at = λ p h. k.at p.session h }

  keep_checkpoint-Keeps :
      (thread_id : ℕ) (outcome : GraphOutcome)
      → Keeps (Inside P) (keep_checkpoint thread_id outcome)
  unfolding keep_checkpoint
  keep_checkpoint-Keeps thread_id (done st) = Keeps-pure (Inside P) tt
  keep_checkpoint-Keeps thread_id (interrupted st) = record { at = λ p h. h }

  invoke-Keeps :
      (thread_id : ℕ) (m : Action GraphOutcome) → Keeps P m → Keeps (Inside P) (invoke thread_id m)
  unfolding invoke
  invoke-Keeps thread_id m k =
      Keeps-bind (Inside P) (in_session m) _ (in_session-Keeps m k) λ outcome.
        Keeps-bind (Inside P) (keep_checkpoint thread_id outcome) _
          (keep_checkpoint-Keeps thread_id outcome) λ _. Keeps-pure (Inside P) outcome

  record_message-Keeps :
      (run_id : ℕ) (content : MessageContent) → Keeps (Inside P) (record_message run_id content)
  unfolding record_message
  record_message-Keeps run_id content =
      Keeps-try_except (Inside P) (in_session (log_message run_id Role.assistant none content)) _ _
        (in_session-Keeps _ (log_message-Keeps P ignores run_id Role.assistant none content))
        (λ u. Keeps-pure (Inside P) u) (λ _. Keeps-pure (Inside P) tt)

  record_completion-Keeps :
      (run_id : ℕ) (status : RunStatus) (summary : Text)
      → Keeps (Inside P) (record_completion run_id status summary)
  unfolding record_completion complete_run
  record_completion-Keeps run_id status summary =
      Keeps-try_except (Inside P)
        (in_session (complete_run run_id status (some (Summary.stated summary)))) _ _
        (record {
          at = λ p h.
              (complete_found-Keeps P ignores run_id status (some (Summary.stated summary))
                  (find run_id p.session.agent_runs)).at
                p.session h;
        })
        (λ u. Keeps-pure (Inside P) u) (λ _. Keeps-pure (Inside P) tt)

  finalize-Keeps :
      (run_id : ℕ) (outcome : GraphOutcome) → Keeps (Inside P) (finalize run_id outcome)
  unfolding finalize
  finalize-Keeps run_id (interrupted st) =
      Keeps-bind (Inside P) (record_message run_id _) _ (record_message-Keeps run_id _)
        λ _. Keeps-pure (Inside P) _
  finalize-Keeps run_id (done st) =
      Keeps-bind (Inside P) (record_message run_id _) _ (record_message-Keeps run_id _) λ _.
        Keeps-bind (Inside P) (record_completion run_id RunStatus.completed _) _
          (record_completion-Keeps run_id RunStatus.completed _) λ _. Keeps-pure (Inside P) _

  conclude-Keeps :
      (run_id : ℕ) (m : Procedure GraphOutcome)
      → Keeps (Inside P) m
      → Keeps (Inside P) (conclude run_id m)
  unfolding conclude finalize_error
  conclude-Keeps run_id m k =
      Keeps-try_except (Inside P) m (finalize run_id) _ k (finalize-Keeps run_id) λ e.
        Keeps-bind (Inside P) (record_completion run_id RunStatus.failed failure_summary) _
          (record_completion-Keeps run_id RunStatus.failed failure_summary)
          λ _. Keeps-pure (Inside P) _

  -- A call of the orchestrator keeps what its specialists keep.
  pub handle-Keeps :
      (o : Orchestrator) (r : Request) → SpecialistsKeep P o → Keeps (Inside P) (handle o r)
  unfolding handle start_run
  handle-Keeps o r specialists =
      Keeps-bind (Inside P) (in_session (start_run (run_of o r))) _
        (record {
          at =
              λ p h. ignores p.session _ p.session.messages (p.session.next_id + 2) (omega arith) h;
        })
        λ run.
          Keeps-bind (Inside P)
            (in_session (log_message run.id Role.user none (MessageContent.task r.task))) _
            (in_session-Keeps _ (log_message-Keeps P ignores run.id Role.user none _))
            λ _.
              conclude-Keeps run.id
                (invoke run.id (walk o recursion_limit identify_scope (initial_state o r run)))
                (invoke-Keeps run.id _ (
                  walk-Keeps P o specialists recursion_limit identify_scope
                    (initial_state o r run)))
