-- ===== src/Models/Enums.antt =====
-- The closed sets of string constants of the models (app/models/*.py): statuses, trigger types.
-- A status column holds one of these by its CHECK constraint, and the services write no other.
use restaurant_sahayak.Base.{Bool, true, false}

-- `APPROVAL_STATUSES`
pub data ApprovalStatus : Type 0 where
  pending approved rejected expired : ApprovalStatus

-- `RESERVATION_STATUSES`
pub data ReservationStatus : Type 0 where
  requested booked modified cancelled completed no_show : ReservationStatus

-- `PURCHASE_REQUEST_STATUSES`
pub data PurchaseStatus : Type 0 where
  draft pending_approval approved rejected fulfilled cancelled : PurchaseStatus

-- The literal of `ToolContext.trigger_type` and `AgentRun.trigger_type`
pub data TriggerType : Type 0 where
  manager_request event scheduled : TriggerType

-- `ACTIVE_RESERVATION_STATUSES` of reservation_repo.py
abbrev pub is_active_status : ReservationStatus → Bool
is_active_status ReservationStatus.requested = true
is_active_status ReservationStatus.booked = true
is_active_status ReservationStatus.modified = true
is_active_status _ = false

abbrev pub is_pending : ApprovalStatus → Bool
is_pending ApprovalStatus.pending = true
is_pending _ = false

abbrev pub is_expired : ApprovalStatus → Bool
is_expired ApprovalStatus.expired = true
is_expired _ = false

-- `status IN ('draft', 'pending_approval', 'approved')` of inventory_repo.py
abbrev pub is_open : PurchaseStatus → Bool
is_open PurchaseStatus.draft = true
is_open PurchaseStatus.pending_approval = true
is_open PurchaseStatus.approved = true
is_open _ = false

abbrev pub is_pending_approval : PurchaseStatus → Bool
is_pending_approval PurchaseStatus.pending_approval = true
is_pending_approval _ = false
