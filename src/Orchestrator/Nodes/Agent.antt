-- ===== src/Orchestrator/Nodes/Agent.antt =====
-- The agent itself, with what it is built from.
use restaurant_sahayak.Base.{ℕ, String, Option}
use restaurant_sahayak.Errors.{Result}
use restaurant_sahayak.Models.{Action}
use restaurant_sahayak.Approvals.{ApprovalService}
use restaurant_sahayak.ToolCalling.{AgentResult, LlmResponse, Task}
use restaurant_sahayak.Orchestrator.State.{DelegateDecision, RequiredDomainsDecision, Prompt}

-- `handle` of a specialist
abbrev pub Specialist : Type 0
Specialist = Task → Action AgentResult

-- `OrchestratorAgent.__init__`. The model server is a function of the prompt; the two validations of
-- a tool call's arguments by a schema give `none` for a `ValidationError`.
pub record Orchestrator : Type 0 where
  pub model_name : String
  pub generate : Prompt → Result LlmResponse
  pub read_delegate : String → Option DelegateDecision
  pub read_required_domains : String → Option RequiredDomainsDecision
  pub specialists : String → Option Specialist
  pub approval_service : Option ApprovalService
  pub max_delegations : ℕ
  pub max_retries_per_agent : ℕ
  pub decide_system_prompt : String
  pub scope_system_prompt : String
