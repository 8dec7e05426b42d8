-- ===== src/Orchestrator/State.antt =====
-- The graph's state, the routing decisions and the results of the orchestrator
-- (app/agents/orchestrator_state.py). An identity that the state keeps as a text is a number.
use restaurant_sahayak.Base.{ℕ, String, Bool, Option, Text, List}
use restaurant_sahayak.Models.Enums.{TriggerType}
use restaurant_sahayak.Models.Runs.{Summary}
use restaurant_sahayak.Models.Approvals.{Reason, ExecutionResult, Decision}
use restaurant_sahayak.ToolCalling.{AgentStatus, ToolOutput}

-- `SpecialistName`
pub data SpecialistName : Type 0 where
  reservation customer inventory staffing analytics : SpecialistName

-- The literal's text, which the state keeps
abbrev pub spelled : SpecialistName → String
spelled reservation = "reservation"
spelled customer = "customer"
spelled inventory = "inventory"
spelled staffing = "staffing"
spelled analytics = "analytics"

-- `DelegateDecision`
pub record DelegateDecision : Type 0 where
  pub agent_name : SpecialistName
  pub instruction : String

-- `RequiredDomainsDecision`
pub record RequiredDomainsDecision : Type 0 where
  pub domains : List SpecialistName

-- The task of an invocation: an instruction, or the f-string of a resolved approval
pub data InvocationTask : Type 0 where
  instructed : String → InvocationTask
  resolve_approval : ℕ → InvocationTask

-- The summary of an invocation: the specialist's, or one of the two f-strings of a decision
pub data InvocationSummary : Type 0 where
  reported : Summary → InvocationSummary
  decided : Decision → Reason → Option ExecutionResult → InvocationSummary

pub data InvocationData : Type 0 where
  no_data : InvocationData
  output : ToolOutput → InvocationData
  execution : ExecutionResult → InvocationData

-- `SpecialistInvocationState`, with the entries of `result` that the orchestrator reads
pub record Invocation : Type 0 where
  pub agent_name : String
  pub task : InvocationTask
  pub status : AgentStatus
  pub summary : InvocationSummary
  pub payload : InvocationData
  pub attempt : ℕ

-- `OrchestratorGraphState`; `error` is set by nothing and read by nothing.
pub record GraphState : Type 0 where
  pub task : String
  pub restaurant_id : ℕ
  pub trigger_type : TriggerType
  pub initiated_by_user_id : Option ℕ
  pub triggering_event_id : Option ℕ
  pub orchestrator_run_id : ℕ
  pub correlation_id : ℕ
  pub invocations : List Invocation
  pub required_domains : List String
  pub remaining_steps : ℕ
  pub next_agent : Option String
  pub next_instruction : Option String
  pub finished : Bool
  pub final_response : Option Text
  pub pending_approval_id : Option ℕ
  pub pending_approval_agent : Option String

-- `SpecialistInvocationRecord`
pub record InvocationRecord : Type 0 where
  pub agent_name : String
  pub task : InvocationTask
  pub status : AgentStatus
  pub summary : InvocationSummary
  pub payload : InvocationData

-- The summary of a result: a text, or the f-string of a pause
pub data Report : Type 0 where
  stated : Text → Report
  waiting : Option String → Option ℕ → Report

-- `OrchestratorResult`, less its latency
pub record OrchestratorResult : Type 0 where
  pub orchestrator_run_id : ℕ
  pub status : AgentStatus
  pub summary : Report
  pub invocations : List InvocationRecord
  pub pending_approvals : List InvocationRecord
  pub error : Option Text
  pub awaiting_approval_id : Option ℕ

-- The messages of a call of the model: one constructor for each place, with what it prints
pub data Prompt : Type 0 where
  scope_prompt : String → String → Prompt
  decide_prompt : String → ℕ → String → List Invocation → List String → Prompt
  combine_prompt : String → List Invocation → Prompt
