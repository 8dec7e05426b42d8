-- ===== src/Errors.antt =====
-- `ToolError` of app/tools/base.py: one constructor for each stable `code` that the services
-- raise, holding the values that its message prints; and the other exceptions that can leave an
-- operation. A call that may raise returns a `Result`.
use restaurant_sahayak.Base.{ℕ, String}
use restaurant_sahayak.Models.Enums.{ApprovalStatus, ReservationStatus}

pub data ToolError : Type 0 where
  invalid_domain invalid_risk_level : String → ToolError
  low_risk_does_not_require_approval : ToolError
  approval_not_found approval_expired : ℕ → ToolError
  approval_already_decided : ℕ → ApprovalStatus → ToolError
  agent_run_required : ToolError
  customer_not_found : ℕ → ToolError
  invalid_time : ToolError
  table_not_found : ℕ → ToolError
  table_too_small : String → ℕ → ℕ → ToolError
  table_conflict : String → ToolError
  no_availability : ℕ → ℕ → ToolError
  reservation_not_found : ℕ → ToolError
  reservation_not_modifiable reservation_not_cancellable : ReservationStatus → ToolError
  unsupported_action : String → ToolError
  item_not_found purchase_request_not_found : ℕ → ToolError
  invalid_event_type : String → ToolError
  invalid_memory_type invalid_source : String → ToolError
  invalid_importance invalid_confidence : ToolError
  memory_not_found : ℕ → ToolError
  memory_inactive : ToolError
  missing_search_criteria : ToolError
  agent_run_not_found workflow_run_not_found : ℕ → ToolError
  decided_by_user_id_required : ToolError

-- What a `raise` carries. `integrity_error` is the database's answer to a violated constraint of
-- the models, by the constraint's name; `other` is any exception of code outside the model. Each is an
-- `Exception`, but for `other "CancelledError"`, which the workflows tell apart.
pub data Exn : Type 0 where
  tool_error : ToolError → Exn
  integrity_error : String → Exn
  multiple_results_found : Exn
  assertion_error : Exn
  key_error : String → Exn
  validation_error : String → Exn
  other : String → Exn

pub data Result {ℓ} (A : Type ℓ) : Type ℓ where
  ok : A → Result A
  err : Exn → Result A
