-- ===== src/Models/Approvals.antt =====
-- Approvals (app/models/approval.py) and the events of the bus (app/models/event.py,
-- app/schemas/event.py). `domain`, `risk_level` and `event_type` are free strings that the
-- services test against the constants below.
use restaurant_sahayak.Base.{ℕ, String, Bool, Option, Text, List, [], ◌∷◌, str_eq, any, HasId}
use restaurant_sahayak.Errors.{Exn}
use restaurant_sahayak.Models.Enums.{ApprovalStatus, PurchaseStatus}
use restaurant_sahayak.Models.Bookings.{Changes}

-- `value in CONSTANTS`
unfoldable pub is_in : String → List String → Bool
is_in s = any (str_eq s)

abbrev pub approval_domains : List String
approval_domains = "reservation" ∷ "inventory" ∷ "staffing" ∷ "purchase" ∷ []

abbrev pub approval_risk_levels : List String
approval_risk_levels = "LOW" ∷ "MEDIUM" ∷ "HIGH" ∷ []

abbrev pub event_types : List String
event_types =
    "reservation.created" ∷ "reservation.modified" ∷ "reservation.cancelled" ∷ "inventory.updated"
    ∷ "inventory.low" ∷ "purchase.requested" ∷ "purchase.approved" ∷ "purchase.rejected"
    ∷ "customer.updated" ∷ "staffing.shortage_detected" ∷ "approval.created" ∷ "approval.completed"
    ∷ []

-- The f-string `reason` of a proposal, or the summary of `PendingApprovalOutput`: one constructor
-- for each template, with what it prints.
pub data Reason : Type 0 where
  already_pending : ℕ → Reason
  modify_party cancel_party : ℕ → ℕ → Reason
  restock : String → ℕ → String → ℕ → ℕ → Option ℕ → Reason
  plain : Text → Reason

-- The `parameters` dict of an approval, by its key "action". `bare` is any other dict, which has
-- that key and none that the executors read.
pub data Parameters : Type 0 where
  modify_reservation : ℕ → Changes → Parameters
  cancel_reservation : ℕ → Option Text → Parameters
  approve_purchase_request : ℕ → Parameters
  bare : String → Parameters

-- `{"status": "success", "result": ...}`, with the identity of the row in the result, or
-- `{"status": "failed", "error": ...}`
pub data ExecutionResult : Type 0 where
  success : ℕ → ExecutionResult
  failed : Exn → ExecutionResult

pub record Approval : Type 0 where
  pub id : ℕ
  pub restaurant_id : ℕ
  pub domain : String
  pub action : String
  pub agent_name : String
  pub proposed_by_agent_run_id : ℕ
  pub reason : Reason
  pub parameters : Parameters
  pub risk_level : String
  pub status : ApprovalStatus
  pub decided_by_user_id : Option ℕ
  pub approved_at : Option ℕ
  pub rejected_at : Option ℕ
  pub expires_at : Option ℕ
  pub created_at : ℕ
  pub execution_result : Option ExecutionResult
  pub executed_at : Option ℕ

pub data Decision : Type 0 where
  approved rejected : Decision

-- The payload dicts, one constructor for each place that publishes.
pub data Payload : Type 0 where
  reservation_created : ℕ → ℕ → ℕ → ℕ → ℕ → Payload
  reservation_modified : ℕ → Changes → Payload
  reservation_cancelled : ℕ → Option Text → Payload
  inventory_low : ℕ → String → ℕ → ℕ → ℕ → ℕ → Payload
  purchase_requested : ℕ → ℕ → ℕ → Option ℕ → PurchaseStatus → Payload
  customer_updated : ℕ → Option String → Option String → Option String → Payload
  approval_info : ℕ → String → String → String → ApprovalStatus → Option Decision → Payload

-- An entry of `handler_results`
pub data HandlerResult : Type 0 where
  success : HandlerResult
  failed_after_retries : Exn → HandlerResult

pub record Event : Type 0 where
  pub id : ℕ
  pub event_type : String
  pub restaurant_id : ℕ
  pub entity_id : Option ℕ
  pub payload : Payload
  pub correlation_id : ℕ
  pub published_by : String
  pub idempotency_key : Option String
  pub created_at : ℕ
  pub handled : Bool
  pub handled_at : Option ℕ
  pub handler_results : Option (List (String × HandlerResult))

instance abbrev pub approval_row : HasId Approval
approval_row = record { id_of = λ r. r.id }

instance abbrev pub event_row : HasId Event
event_row = record { id_of = λ r. r.id }
