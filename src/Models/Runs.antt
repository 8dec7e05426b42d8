-- ===== src/Models/Runs.antt =====
-- Agent runs, their messages and workflow runs (app/models/agent_run.py, workflow_run.py), and the
-- values that an agent puts into them (app/agents/state.py). JSON values of the model server and
-- of the tools are texts.
use restaurant_sahayak.Base.{ℕ, String, Option, Text, List, HasId}
use restaurant_sahayak.Errors.{Exn, ToolError}
use restaurant_sahayak.Models.Enums.{TriggerType}

-- `ToolCall` of app/llm/base.py
pub record ToolCall : Type 0 where
  pub name : String
  pub arguments : String

-- `ToolErrorOutput`, by its code
pub data ToolFailure : Type 0 where
  unknown_tool : String → ToolFailure
  refused : ToolError → ToolFailure
  invalid_arguments : String → ToolFailure
  internal_tool_error : ToolFailure

-- `AgentErrorInfo`, by its code
pub data AgentErrorInfo : Type 0 where
  internal_error : AgentErrorInfo
  max_iterations_exceeded : ℕ → AgentErrorInfo

-- The summary of a run: the model's answer, the message of an error, or "No result produced."
pub data Summary : Type 0 where
  stated : Text → Summary
  of_error : AgentErrorInfo → Summary
  no_result : Summary

-- The `content` dict of a message, one constructor for each place that logs one
pub data MessageContent : Type 0 where
  task : String → MessageContent
  answer : Text → MessageContent
  calls : Option Text → List ToolCall → MessageContent
  outcome : String → String → MessageContent
  failure : ToolFailure → MessageContent
  gave_up : AgentErrorInfo → MessageContent
  awaiting_approval : Option ℕ → Option String → MessageContent

pub data RunStatus : Type 0 where
  running completed failed : RunStatus

pub data Role : Type 0 where
  user assistant tool_call tool_result system : Role

pub record AgentRun : Type 0 where
  pub id : ℕ
  pub restaurant_id : ℕ
  pub agent_name : String
  pub model_name : String
  pub parent_run_id : Option ℕ
  pub correlation_id : ℕ
  pub trigger_type : TriggerType
  pub initiated_by_user_id : Option ℕ
  pub triggering_event_id : Option ℕ
  pub status : RunStatus
  pub outcome_summary : Option Summary
  pub started_at : ℕ
  pub completed_at : Option ℕ

pub record AgentMessage : Type 0 where
  pub id : ℕ
  pub run_id : ℕ
  pub sequence_number : ℕ
  pub role : Role
  pub tool_name : Option String
  pub content : MessageContent
  pub approval_id : Option ℕ

pub record WorkflowRun : Type 0 where
  pub id : ℕ
  pub workflow_type : String
  pub restaurant_id : ℕ
  pub correlation_id : ℕ
  pub status : RunStatus
  pub triggered_by : String
  pub final_result : Option String
  pub error : Option Exn
  pub started_at : ℕ
  pub completed_at : Option ℕ

instance abbrev pub agent_run_row : HasId AgentRun
agent_run_row = record { id_of = λ r. r.id }

instance abbrev pub workflow_run_row : HasId WorkflowRun
workflow_run_row = record { id_of = λ r. r.id }
