-- ===== src/Tests/Agents.antt =====
-- An agent of the test restaurant: its model calls a tool that fails, then one that does not exist,
-- and then answers.
use restaurant_sahayak.Base.{◌≡◌, refl, arith, String, none, some, List, [], ◌∷◌, codes}
use restaurant_sahayak.Errors.{Result, ok, tool_error, invalid_time}
use restaurant_sahayak.Exec.{Keeps, Keeps-throw, throw}
use restaurant_sahayak.Models.{Session}
use restaurant_sahayak.Models.Enums.{TriggerType}
use restaurant_sahayak.Models.Runs.{ToolCall}
use restaurant_sahayak.ToolCalling.{
  Agent, AgentResult, Task, Tool, LlmMessage, LlmResponse, Working, iterate, handle, initial_state,
}
use restaurant_sahayak.AgentRuns.Sequence.{SequencesUnique}
use restaurant_sahayak.ToolCalling.Preserves.{ToolsKeep}
use restaurant_sahayak.ToolCalling.Outcome.{
  HasRun, Recorded, handle_records, handle-SequencesUnique,
}
use restaurant_sahayak.ToolCalling.Bounds.{asks, iterate-asks}
use restaurant_sahayak.Tests.{restaurant, context}

abbrev past_booking : Tool
past_booking = record { name = "create_reservation"; call = λ _ _. throw (tool_error invalid_time) }

abbrev call_of : String → ToolCall
call_of name = record { name = name; arguments = "{}" }

-- The model calls two tools, and answers once it has seen a result.
abbrev answer_to : List LlmMessage → Result LlmResponse
answer_to (_ ∷ _ ∷ []) = ok (record {
  content = none;
  tool_calls = call_of "create_reservation" ∷ call_of "order_pizza" ∷ [];
})
answer_to _ = ok (record { content = some (codes " Sorry. "); tool_calls = [] })

abbrev agent : Agent
agent = record {
  name = "reservation";
  system_prompt = "You book tables.";
  model_name = "qwen3:8b";
  generate = answer_to;
  tools = past_booking ∷ [];
  max_iterations = 8;
}

abbrev job : Task
job = record {
  task = "Book a table for yesterday";
  restaurant_id = 1;
  trigger_type = TriggerType.manager_request;
  initiated_by_user_id = none;
  triggering_event_id = none;
  parent_run_id = none;
  correlation_id = none;
}

tools_keep : (P : Session → Type 0) → ToolsKeep P agent.tools
tools_keep P = ((λ arguments context. Keeps-throw P (tool_error invalid_time)), tt)

handle_records_example :
    (result : AgentResult) × (s' : Session) × (handle agent job restaurant ≡ (ok result, s'))
    × (result.agent_run_id ≡ 100)
    × Recorded result s'
handle_records_example = handle_records agent job restaurant (tools_keep (HasRun 100))

handle-SequencesUnique_example : Keeps SequencesUnique (handle agent job)
handle-SequencesUnique_example = handle-SequencesUnique agent job (tools_keep SequencesUnique)

abbrev start : Working
start = record { state = initial_state; messages = []; session = restaurant }

iterate-asks_example : iterate 9 agent context 100 start ≡ asks 8 agent context 100 start
iterate-asks_example = iterate-asks 9 agent context 100 start (omega arith) refl
