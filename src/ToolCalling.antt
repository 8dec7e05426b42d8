-- ===== src/ToolCalling.antt =====
-- `ToolCallingAgent` (app/agents/tool_calling_agent.py), the bounded loop that every specialist
-- agent runs. The model server is a parameter, a function of the conversation, and a tool is any
-- action of the session; both may raise. The telemetry and the latency are left out.
pub mod Preserves
pub mod Outcome
pub mod Bounds
pub mod Sessions
use restaurant_sahayak.Base.{
  ℕ, zero, suc, ◌+◌, ltb, String, Bool, true, false, str_eq, or_else, Option, none, some, List, [],
  ◌∷◌, ◌++◌, Text, codes, strip, truthy, if◌then◌else◌,
}
use restaurant_sahayak.Errors.{Result, ok, err, Exn, other, tool_error, validation_error}
use restaurant_sahayak.Exec.{Exec, pure, throw, lift, gets, modify, try_except, after, ◌>>=◌, ◌>>◌}
use restaurant_sahayak.Models.{Session, Action}
use restaurant_sahayak.Models.Enums.{TriggerType}
use restaurant_sahayak.Models.Runs.{
  ToolCall, ToolFailure, unknown_tool, refused, invalid_arguments, internal_tool_error,
  AgentErrorInfo, internal_error, max_iterations_exceeded, Summary, stated, of_error, no_result,
  MessageContent, RunStatus, Role, AgentRun,
}
use restaurant_sahayak.Settings.{ToolContext}
use restaurant_sahayak.AgentRuns.{NewRun, start_run, log_message, complete_run}

-- `LLMMessage`: the system prompt with the time that it states, and what follows it
pub data LlmMessage : Type 0 where
  system : String → ℕ → LlmMessage
  user : String → LlmMessage
  assistant : Option Text → List ToolCall → LlmMessage
  tool_result : String → String → LlmMessage
  tool_failure : String → ToolFailure → LlmMessage

pub record LlmResponse : Type 0 where
  pub content : Option Text
  pub tool_calls : List ToolCall

-- What a tool returns: its JSON, and the values under the keys "status" and "approval_id", if they
-- are there
pub record ToolOutput : Type 0 where
  pub json : String
  pub status : Option String
  pub approval_id : Option ℕ

pub record Tool : Type 0 where
  pub name : String
  pub call : String → ToolContext → Action ToolOutput

-- `ToolCallingAgent`
pub record Agent : Type 0 where
  pub name : String
  pub system_prompt : String
  pub model_name : String
  pub generate : List LlmMessage → Result LlmResponse
  pub tools : List Tool
  pub max_iterations : ℕ

-- `ToolCallRecord`
pub record ToolCallRecord : Type 0 where
  pub tool_name : String
  pub input : String
  pub output : ToolOutput

-- `AgentState`, less its task
pub record AgentState : Type 0 where
  pub iterations : ℕ
  pub tool_calls : List ToolCallRecord
  pub final_content : Option Text
  pub error : Option AgentErrorInfo

abbrev pub initial_state : AgentState
initial_state = record { iterations = 0; tool_calls = []; final_content = none; error = none }

-- The objects that the loop mutates, which outlive an exception, and the session
pub record Working : Type 0 where
  pub state : AgentState
  pub messages : List LlmMessage
  pub session : Session

abbrev pub Step : Type 0 → Type 0
Step = Exec Working

-- A call of a service
abbrev pub in_session : {A : Type 0} → Action A → Step A
in_session m w = ((m w.session).0, record w { session = (m w.session).1 })

abbrev pub say : LlmMessage → Step (Unit {0})
say message = modify (λ w. record w { messages = w.messages ++ message ∷ [] })

abbrev pub with_state : (AgentState → AgentState) → Step (Unit {0})
with_state f = modify (λ w. record w { state = f w.state })

-- `self.tools.get(name)`; of two tools of one name the later is kept.
abbrev pub find_tool : String → List Tool → Option Tool
find_tool name [] = none
find_tool name (t ∷ ts) = elim (find_tool name ts) [
  | some later ↦ some later
  | none ↦ if str_eq t.name name then some t else none
]

-- The `except` clauses of `_execute_tool_call`
abbrev pub failure_of : Exn → ToolFailure
failure_of (tool_error e) = refused e
failure_of (validation_error message) = invalid_arguments message
failure_of _ = internal_tool_error

-- The end of `_execute_tool_call` after a failure
unfoldable pub report_failure : ℕ → ToolCall → ToolFailure → Step (Unit {0})
report_failure run_id call failure = do
  say (tool_failure call.name failure)
  in_session (log_message run_id Role.tool_result (some call.name) (MessageContent.failure failure))

-- The `else` clause of `_execute_tool_call`
unfoldable pub report_output : ℕ → ToolCall → ToolOutput → Step (Unit {0})
report_output run_id call output = do
  with_state (λ st. record st {
    tool_calls =
        st.tool_calls
        ++ record { tool_name = call.name; input = call.arguments; output = output } ∷ [];
  })
  say (tool_result call.name output.json)
  in_session (
      log_message run_id Role.tool_result (some call.name)
        (MessageContent.outcome call.arguments output.json))

unfoldable pub call_tool : ToolContext → ℕ → ToolCall → Option Tool → Step (Unit {0})
call_tool context run_id call none = report_failure run_id call (unknown_tool call.name)
call_tool context run_id call (some tool) =
    try_except (in_session (tool.call call.arguments context)) (report_output run_id call)
      (λ e. report_failure run_id call (failure_of e))

-- `_execute_tool_call`
unfoldable pub execute_tool_call : Agent → ToolContext → ℕ → ToolCall → Step (Unit {0})
execute_tool_call agent context run_id call =
    call_tool context run_id call (find_tool call.name agent.tools)

-- The `for` loop over the calls of one response
unfoldable pub execute_all : Agent → ToolContext → ℕ → List ToolCall → Step (Unit {0})
execute_all agent context run_id [] = pure tt
execute_all agent context run_id (call ∷ calls) = do
  execute_tool_call agent context run_id call
  execute_all agent context run_id calls

pub data AgentStatus : Type 0 where
  completed pending_approval error : AgentStatus

-- `state.tool_calls[-1]`
abbrev pub last : List ToolCallRecord → Option ToolCallRecord
last [] = none
last (r ∷ []) = some r
last (r ∷ q ∷ rs) = last (q ∷ rs)

abbrev pub says_pending : Option ToolCallRecord → Bool
says_pending none = false
says_pending (some r) = elim r.output.status [ none ↦ false | some s ↦ str_eq s "pending_approval" ]

-- `_final_status`
unfoldable pub final_status : AgentState → AgentStatus
final_status st = if says_pending (last st.tool_calls) then pending_approval else completed

-- `(response.content or "").strip() or "Done."`
abbrev pub final_text : Option Text → Text
final_text content =
    let stripped = strip (or_else content []) in if truthy stripped then stripped else codes "Done."

-- The branch of a response without tool calls
unfoldable pub finish : ℕ → Option Text → Step AgentStatus
finish run_id content = do
  with_state (λ st. record st { final_content = some (final_text content) })
  in_session (log_message run_id Role.assistant none (MessageContent.answer (final_text content)))
  gets (λ w. final_status w.state)

-- What follows the loop
unfoldable pub give_up : Agent → ℕ → Step AgentStatus
give_up agent run_id = do
  let info = max_iterations_exceeded agent.max_iterations
  with_state (λ st. record st { error = some info })
  in_session (log_message run_id Role.assistant none (MessageContent.gave_up info))
  pure error

-- One response of the model, and how the loop goes on
unfoldable pub respond :
    Agent → ToolContext → ℕ → Step AgentStatus → LlmResponse → List ToolCall → Step AgentStatus
respond agent context run_id go_on response [] = finish run_id response.content
respond agent context run_id go_on response (call ∷ calls) = do
  say (assistant response.content (call ∷ calls))
  in_session (
      log_message run_id Role.assistant none (MessageContent.calls response.content (call ∷ calls)))
  execute_all agent context run_id (call ∷ calls)
  go_on

-- A round of the `while` loop
unfoldable pub ask : Agent → ToolContext → ℕ → Step AgentStatus → Step AgentStatus
ask agent context run_id go_on = do
  with_state (λ st. record st { iterations = st.iterations + 1 })
  messages ← gets (λ w. w.messages)
  response ← lift (agent.generate messages)
  respond agent context run_id go_on response response.tool_calls

-- The `while` loop of `_run_loop`, on fuel
unfoldable pub iterate : ℕ → Agent → ToolContext → ℕ → Step AgentStatus
iterate zero agent context run_id = throw (other "OutOfFuel")
iterate (suc fuel) agent context run_id =
    let rest = iterate fuel agent context run_id in
    gets (λ w. w.state) >>= λ st.
    if ltb st.iterations agent.max_iterations
    then ask agent context run_id rest
    else give_up agent run_id

-- `AgentResult`, less its latency; `data` is the output of the last of the tool calls.
pub record AgentResult : Type 0 where
  pub agent_run_id : ℕ
  pub status : AgentStatus
  pub summary : Summary
  pub tool_calls : List ToolCallRecord
  pub error : Option AgentErrorInfo

-- The arguments of `handle`
pub record Task : Type 0 where
  pub task : String
  pub restaurant_id : ℕ
  pub trigger_type : TriggerType
  pub initiated_by_user_id : Option ℕ
  pub triggering_event_id : Option ℕ
  pub parent_run_id : Option ℕ
  pub correlation_id : Option ℕ

abbrev pub run_of : Agent → Task → NewRun
run_of agent t = record {
  restaurant_id = t.restaurant_id;
  agent_name = agent.name;
  model_name = agent.model_name;
  trigger_type = t.trigger_type;
  initiated_by_user_id = t.initiated_by_user_id;
  triggering_event_id = t.triggering_event_id;
  parent_run_id = t.parent_run_id;
  correlation_id = t.correlation_id;
}

abbrev pub context_of : Agent → Task → ℕ → ToolContext
context_of agent t run_id = record {
  restaurant_id = t.restaurant_id;
  acting_agent = agent.name;
  trigger_type = t.trigger_type;
  agent_run_id = some run_id;
}

-- The two messages that `_run_loop` starts with
abbrev pub opening : Agent → Task → ℕ → List LlmMessage
opening agent t now = system agent.system_prompt now ∷ user t.task ∷ []

-- `state.final_content or (state.error.message if state.error else "No result produced.")`
abbrev pub error_summary : Option AgentErrorInfo → Summary
error_summary none = no_result
error_summary (some info) = of_error info

abbrev pub summary_of : AgentState → Summary
summary_of st = elim st.final_content [
  | none ↦ error_summary st.error
  | some text ↦ if truthy text then stated text else error_summary st.error
]

-- `_run_loop` in its `try`: an exception becomes the status "error". The fuel of the loop, one more
-- than its iterations, is enough: `Bounds`.
unfoldable pub attempt : Agent → ToolContext → ℕ → Step AgentStatus
attempt agent context run_id =
    try_except (iterate (suc agent.max_iterations) agent context run_id) pure
      (λ e. with_state (λ st. record st { error = some internal_error }) >> pure error)

abbrev pub run_status : AgentStatus → RunStatus
run_status error = RunStatus.failed
run_status _ = RunStatus.completed

-- The record of the end, and the result; a failure of the record is logged only.
unfoldable pub conclude : ℕ → AgentStatus → Step AgentResult
conclude run_id status = do
  st ← gets (λ w. w.state)
  try_except (in_session (complete_run run_id (run_status status) (some (summary_of st)))) pure
      (λ e. pure tt)
  pure (record {
    agent_run_id = run_id;
    status = status;
    summary = summary_of st;
    tool_calls = st.tool_calls;
    error = st.error;
  })

-- `handle`, from the start of the loop on, with the objects that it works on at the end
unfoldable pub work : Agent → Task → ℕ → Step AgentResult
work agent t run_id = do
  status ← attempt agent (context_of agent t run_id) run_id
  conclude run_id status

-- `handle`
unfoldable pub handle : Agent → Task → Action AgentResult
handle agent t = do
  run ← start_run (run_of agent t)
  log_message run.id Role.user none (MessageContent.task t.task)
  λ s.
      let out =
        work agent t run.id
          (record { state = initial_state; messages = opening agent t s.now; session = s }) in
      (out.0, out.1.session)
