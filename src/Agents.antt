-- ===== src/Agents.antt =====
-- The specialists (app/agents/reservation_agent.py and the other agent classes): a name, a prompt and
-- tools on the loop of `ToolCalling`. The texts of the prompts are parameters.
pub mod Reservations
pub mod Orchestrated
use restaurant_sahayak.Base.{ℕ, String, List}
use restaurant_sahayak.Errors.{Result}
use restaurant_sahayak.ToolCalling.{Agent, Tool, LlmMessage, LlmResponse}

-- The model server as an agent uses it
pub record LlmProvider : Type 0 where
  pub model_name : String
  pub generate : List LlmMessage → Result LlmResponse

-- `ToolCallingAgent.__init__`
abbrev pub agent_of : String → String → LlmProvider → List Tool → ℕ → Agent
agent_of name system_prompt llm tools max_iterations = record {
  name = name;
  system_prompt = system_prompt;
  model_name = llm.model_name;
  generate = llm.generate;
  tools = tools;
  max_iterations = max_iterations;
}

-- `ReservationAgent.__init__`, with its default bound
unfoldable pub reservation_agent : String → LlmProvider → List Tool → Agent
reservation_agent system_prompt llm tools = agent_of "reservation" system_prompt llm tools 8

-- `CustomerAgent.__init__`
unfoldable pub customer_agent : String → LlmProvider → List Tool → Agent
customer_agent system_prompt llm tools = agent_of "customer" system_prompt llm tools 8

-- `InventoryAgent.__init__`
unfoldable pub inventory_agent : String → LlmProvider → List Tool → Agent
inventory_agent system_prompt llm tools = agent_of "inventory" system_prompt llm tools 8

-- `StaffingAgent.__init__`
unfoldable pub staffing_agent : String → LlmProvider → List Tool → Agent
staffing_agent system_prompt llm tools = agent_of "staffing" system_prompt llm tools 8

-- `AnalyticsAgent.__init__`
unfoldable pub analytics_agent : String → LlmProvider → List Tool → Agent
analytics_agent system_prompt llm tools = agent_of "analytics" system_prompt llm tools 8
