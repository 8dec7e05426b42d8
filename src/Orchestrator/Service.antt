-- ===== src/Orchestrator/Service.antt =====
-- `handle` and `resume` of the orchestrator, with the checkpoints of its paused threads.
use restaurant_sahayak.Base.{
  ℕ, ◌-◌, String, false, Option, none, some, List, [], ◌∷◌, map, select, Text, codes, truthy, HasId,
  find, remove, if◌then◌else◌,
}
use restaurant_sahayak.Exec.{Exec, pure, gets, modify, try_except, ◌>>=◌, ◌>>◌}
use restaurant_sahayak.Models.{Session, Action}
use restaurant_sahayak.Models.Enums.{TriggerType}
use restaurant_sahayak.Models.Runs.{
  AgentRun, MessageContent, RunStatus, Role, Summary, awaiting_approval,
}
use restaurant_sahayak.AgentRuns.{NewRun, start_run, log_message, complete_run}
use restaurant_sahayak.ToolCalling.{AgentStatus}
use restaurant_sahayak.Orchestrator.State.{
  Invocation, InvocationRecord, GraphState, Report, waiting, OrchestratorResult,
}
use restaurant_sahayak.Orchestrator.Nodes
use restaurant_sahayak.Orchestrator.Nodes.{Orchestrator, Answer, is_waiting}
use restaurant_sahayak.Orchestrator.Graph.{
  identify_scope, await_approval, GraphOutcome, done, interrupted, go_to, route, walk,
}

-- LangGraph's default `recursion_limit`
abbrev pub recursion_limit : ℕ
recursion_limit = 25

-- A paused thread of the in-memory checkpointer
pub record Checkpoint : Type 0 where
  pub thread_id : ℕ
  pub state : GraphState

instance abbrev pub checkpoint_row : HasId Checkpoint
checkpoint_row = record { id_of = λ c. c.thread_id }

-- The process: the checkpointer of the orchestrator and the session of its services
pub record Process : Type 0 where
  pub checkpoints : List Checkpoint
  pub session : Session

abbrev pub Procedure : Type 0 → Type 0
Procedure = Exec Process

-- A call that works on the session
abbrev pub in_session : {A : Type 0} → Action A → Procedure A
in_session m p = ((m p.session).0, record p { session = (m p.session).1 })

-- What the checkpointer keeps of a walk: the state of a pause
unfoldable pub keep_checkpoint : ℕ → GraphOutcome → Procedure (Unit {0})
keep_checkpoint thread_id (done st) = pure tt
keep_checkpoint thread_id (interrupted st) =
    modify
      (λ p. record p { checkpoints = record { thread_id = thread_id; state = st } ∷ p.checkpoints })

-- `self._graph.ainvoke` on a thread
unfoldable pub invoke : ℕ → Action GraphOutcome → Procedure GraphOutcome
invoke thread_id m = do outcome ← in_session m; keep_checkpoint thread_id outcome; pure outcome

-- The arguments of `handle`
pub record Request : Type 0 where
  pub task : String
  pub restaurant_id : ℕ
  pub trigger_type : TriggerType
  pub initiated_by_user_id : Option ℕ
  pub triggering_event_id : Option ℕ
  pub correlation_id : Option ℕ

abbrev pub run_of : Orchestrator → Request → NewRun
run_of o r = record {
  restaurant_id = r.restaurant_id;
  agent_name = "orchestrator";
  model_name = o.model_name;
  trigger_type = r.trigger_type;
  initiated_by_user_id = r.initiated_by_user_id;
  triggering_event_id = r.triggering_event_id;
  parent_run_id = none;
  correlation_id = r.correlation_id;
}

abbrev pub initial_state : Orchestrator → Request → AgentRun → GraphState
initial_state o r run = record {
  task = r.task;
  restaurant_id = r.restaurant_id;
  trigger_type = r.trigger_type;
  initiated_by_user_id = r.initiated_by_user_id;
  triggering_event_id = r.triggering_event_id;
  orchestrator_run_id = run.id;
  correlation_id = run.correlation_id;
  invocations = [];
  required_domains = [];
  remaining_steps = o.max_delegations;
  next_agent = none;
  next_instruction = none;
  finished = false;
  final_response = none;
  pending_approval_id = none;
  pending_approval_agent = none;
}

-- `_record_message`: a failure is logged only.
unfoldable pub record_message : ℕ → MessageContent → Procedure (Unit {0})
record_message run_id content =
    try_except (in_session (log_message run_id Role.assistant none content)) pure (λ _. pure tt)

-- `_record_completion`: so is one here.
unfoldable pub record_completion : ℕ → RunStatus → Text → Procedure (Unit {0})
record_completion run_id status summary =
    try_except (in_session (complete_run run_id status (some (Summary.stated summary)))) pure
      (λ _. pure tt)

abbrev pub record_of : Invocation → InvocationRecord
record_of i = record {
  agent_name = i.agent_name;
  task = i.task;
  status = i.status;
  summary = i.summary;
  payload = i.payload;
}

abbrev pub result_of : ℕ → AgentStatus → Report → List InvocationRecord → OrchestratorResult
result_of run_id status summary invocations = record {
  orchestrator_run_id = run_id;
  status = status;
  summary = summary;
  invocations = invocations;
  pending_approvals = select (λ i. is_waiting i.status) invocations;
  error = none;
  awaiting_approval_id = none;
}

abbrev pub pause_of : ℕ → GraphState → OrchestratorResult
pause_of run_id st =
    record (result_of run_id AgentStatus.pending_approval
      (waiting st.pending_approval_agent st.pending_approval_id) (map record_of st.invocations)) {
        awaiting_approval_id = st.pending_approval_id;
      }

-- `final_state.get("final_response") or "Done."`
abbrev pub response_of : Option Text → Text
response_of none = codes "Done."
response_of (some text) = if truthy text then text else codes "Done."

-- `_finalize`: a pause leaves the run "running".
unfoldable pub finalize : ℕ → GraphOutcome → Procedure OrchestratorResult
finalize run_id (interrupted st) = do
  record_message run_id (awaiting_approval st.pending_approval_id st.pending_approval_agent)
  pure (pause_of run_id st)
finalize run_id (done st) = do
  let summary = response_of st.final_response
  record_message run_id (MessageContent.answer summary)
  record_completion run_id RunStatus.completed summary
  pure (
      result_of run_id AgentStatus.completed (Report.stated summary) (map record_of st.invocations))

abbrev pub failure_summary : Text
failure_summary =
    codes "The orchestrator hit an unexpected internal error and could not complete the request."

abbrev pub failure_of : ℕ → OrchestratorResult
failure_of run_id = record (result_of run_id AgentStatus.error (Report.stated failure_summary) []) {
  error = some failure_summary;
}

-- `_finalize_error`
unfoldable pub finalize_error : ℕ → Procedure OrchestratorResult
finalize_error run_id = do
  record_completion run_id RunStatus.failed failure_summary
  pure (failure_of run_id)

-- The `try` of `handle` and of `resume`
unfoldable pub conclude : ℕ → Procedure GraphOutcome → Procedure OrchestratorResult
conclude run_id m = try_except m (finalize run_id) (λ e. finalize_error run_id)

-- `handle`
unfoldable pub handle : Orchestrator → Request → Procedure OrchestratorResult
handle o r = do
  run ← in_session (start_run (run_of o r))
  in_session (log_message run.id Role.user none (MessageContent.task r.task))
  conclude run.id (invoke run.id (walk o recursion_limit identify_scope (initial_state o r run)))

-- What LangGraph does on a thread that is not paused, by its identity and the answer: a parameter
abbrev pub Unpaused : Type 0
Unpaused = ℕ → Answer → Action GraphOutcome

-- `ainvoke(Command(resume=...))`: while `await_approval` raises, the thread stays paused. Once the
-- node has returned, the pause is over, and the walk goes on with one step of the limit less.
unfoldable pub resume_thread :
    Orchestrator → Unpaused → Answer → ℕ → Option Checkpoint → Procedure GraphOutcome
resume_thread o unpaused answer run_id none = invoke run_id (unpaused run_id answer)
resume_thread o unpaused answer run_id (some c) = do
  st ← in_session (Nodes.await_approval o answer c.state)
  modify (λ p. record p { checkpoints = remove run_id p.checkpoints })
  invoke run_id (go_to (walk o (recursion_limit - 1)) (route await_approval st) st)

-- `resume`
unfoldable pub resume : Orchestrator → Unpaused → ℕ → Answer → Procedure OrchestratorResult
resume o unpaused run_id answer = do
  paused ← gets (λ p. find run_id p.checkpoints)
  conclude run_id (resume_thread o unpaused answer run_id paused)
