-- ===== src/Orchestrator/Nodes/Delegate.antt =====
-- The node that calls a specialist, with its bounded retries.
use restaurant_sahayak.Base.{
  ℕ, zero, suc, ◌+◌, ◌-◌, String, Bool, true, false, str_eq, Option, none, some, [], ◌∷◌, ◌++◌,
  if◌then◌else◌,
}
use restaurant_sahayak.Errors.{assertion_error, key_error}
use restaurant_sahayak.Exec.{pure, throw, ◌>>=◌}
use restaurant_sahayak.Models.{Action}
use restaurant_sahayak.ToolCalling.{AgentResult, AgentStatus, Task, ToolCallRecord, last}
use restaurant_sahayak.Orchestrator.State.{
  instructed, reported, InvocationData, no_data, output, Invocation, GraphState,
}
use restaurant_sahayak.Orchestrator.Nodes.Agent.{Orchestrator, Specialist}

-- `state["next_instruction"] or state["task"]`
abbrev pub instruction_of : GraphState → String
instruction_of st = elim st.next_instruction [
  | none ↦ st.task
  | some i ↦ if str_eq i "" then st.task else i
]

-- The arguments of `_call`
abbrev pub task_for : GraphState → Task
task_for st = record {
  task = instruction_of st;
  restaurant_id = st.restaurant_id;
  trigger_type = st.trigger_type;
  initiated_by_user_id = st.initiated_by_user_id;
  triggering_event_id = st.triggering_event_id;
  parent_run_id = some st.orchestrator_run_id;
  correlation_id = some st.correlation_id;
}

abbrev pub is_error : AgentStatus → Bool
is_error AgentStatus.error = true
is_error _ = false

abbrev pub is_waiting : AgentStatus → Bool
is_waiting AgentStatus.pending_approval = true
is_waiting _ = false

-- The variables of the retry loop
pub record Attempted : Type 0 where
  pub result : AgentResult
  pub attempt : ℕ

-- The `while` loop of `_delegate_node`, on the retries that are left
unfoldable pub retry : ℕ → Action AgentResult → Attempted → Action Attempted
retry zero call a = pure a
retry (suc left) call a =
    let again = call >>= λ r. retry left call (record { result = r; attempt = a.attempt + 1 }) in
    if is_error a.result.status then again else pure a

unfoldable pub call_specialist : ℕ → Action AgentResult → Action Attempted
call_specialist retries call = call >>= λ r. retry retries call (record { result = r; attempt = 1 })

-- `result.data`
abbrev pub data_of : Option ToolCallRecord → InvocationData
data_of none = no_data
data_of (some r) = output r.output

-- `(result.data or {}).get("approval_id")`
abbrev pub approval_of : Option ToolCallRecord → Option ℕ
approval_of none = none
approval_of (some r) = r.output.approval_id

abbrev pub invocation_of : String → String → Attempted → Invocation
invocation_of agent_name instruction a = record {
  agent_name = agent_name;
  task = instructed instruction;
  status = a.result.status;
  summary = reported a.result.summary;
  payload = data_of (last a.result.tool_calls);
  attempt = a.attempt;
}

-- The update of `_delegate_node`; a delegation is made only while steps remain, so that the
-- subtraction is exact.
unfoldable pub with_delegation : String → Attempted → GraphState → GraphState
with_delegation agent_name a st = record st {
  invocations = st.invocations ++ invocation_of agent_name (instruction_of st) a ∷ [];
  remaining_steps = st.remaining_steps - 1;
  next_agent = none;
  next_instruction = none;
  pending_approval_id =
      if is_waiting a.result.status
      then approval_of (last a.result.tool_calls)
      else st.pending_approval_id;
  pending_approval_agent =
      if is_waiting a.result.status then some agent_name else st.pending_approval_agent;
}

unfoldable pub delegate_to :
    Orchestrator → GraphState → String → Option Specialist → Action GraphState
delegate_to o st agent_name none = throw (key_error agent_name)
delegate_to o st agent_name (some specialist) = do
  a ← call_specialist o.max_retries_per_agent (specialist (task_for st))
  pure (with_delegation agent_name a st)

unfoldable pub delegate_next : Orchestrator → GraphState → Option String → Action GraphState
delegate_next o st none = throw assertion_error
delegate_next o st (some agent_name) = delegate_to o st agent_name (o.specialists agent_name)

-- `_delegate_node`
unfoldable pub delegate : Orchestrator → GraphState → Action GraphState
delegate o st = delegate_next o st st.next_agent
