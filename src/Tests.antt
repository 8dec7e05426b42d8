-- ===== src/Tests.antt =====
-- A small restaurant on which the theorems are run: the data of the tests.
pub mod Reservations
pub mod Approvals
pub mod Events
pub mod Tables
pub mod Stock
pub mod Agents
pub mod Workflows
pub mod Orchestrator
pub mod Memories
pub mod Staffing
pub mod Bookers
pub mod Reviews
pub mod Customers
use mathlib.Core.Path.{subst}
use restaurant_sahayak.Base.{◌≡◌, ℕ, String, Bool, true, false, Option, none, some, List, [], ◌∷◌}
use restaurant_sahayak.Exec.{pure, Keeps, Keeps-pure}
use restaurant_sahayak.Models.{Session, empty_session}
use restaurant_sahayak.Models.Enums.{TriggerType, ReservationStatus, ApprovalStatus}
use restaurant_sahayak.Models.Bookings.{Customer, Table, Reservation, Changes}
use restaurant_sahayak.Models.Approvals.{Approval, Reason, Parameters}
use restaurant_sahayak.Settings.{ToolContext}
use restaurant_sahayak.Events.{EventBus, Registration}
use restaurant_sahayak.Events.Preserves.{HandlersKeep}
use restaurant_sahayak.Approvals.{ApprovalService, Executor}
use restaurant_sahayak.Approvals.Preserves.{PartnersKeep}

abbrev pub guest : Customer
guest = record {
  id = 10;
  restaurant_id = 1;
  name = "Asha";
  phone = none;
  email = none;
  is_active = true;
}

abbrev pub table_of : ℕ → String → ℕ → Table
table_of id label seat_capacity = record {
  id = id;
  restaurant_id = 1;
  label = label;
  seat_capacity = seat_capacity;
  is_active = true;
}

-- A reservation of table 20 at the given time, for an hour
abbrev pub reservation_at : ℕ → ReservationStatus → ℕ → ℕ → Reservation
reservation_at id status party_size requested_time = record {
  id = id;
  restaurant_id = 1;
  customer_id = 10;
  table_id = some 20;
  party_size = party_size;
  requested_time = requested_time;
  duration_minutes = 60;
  status = status;
  notes = none;
  created_via = TriggerType.manager_request;
}

abbrev pub evening : ℕ
evening = 7200000000

-- Table 20 was cancelled for the evening and then booked again.
abbrev pub restaurant : Session
restaurant = record empty_session {
  now = 1000;
  next_id = 100;
  customers = guest ∷ [];
  tables = table_of 20 "T1" 4 ∷ table_of 21 "T2" 8 ∷ [];
  reservations =
      reservation_at 30 ReservationStatus.cancelled 2 evening
      ∷ reservation_at 31 ReservationStatus.booked 4 evening
      ∷ [];
}

abbrev pub context : ToolContext
context = record {
  restaurant_id = 1;
  acting_agent = "reservation_agent";
  trigger_type = TriggerType.manager_request;
  agent_run_id = some 5;
}

-- A bus with one handler, which does nothing
abbrev pub bus : EventBus
bus = record {
  max_retries_per_handler = 2;
  handlers = λ _. record { name = "listener"; handler = λ _. pure tt } ∷ [];
}

pub bus_keeps : (P : Session → Type 0) (b : EventBus) → some bus ≡ some b → HandlersKeep P b
bus_keeps P b e =
    let same : bus ≡ b = cc e in
    subst (HandlersKeep P) same (λ t. (λ envelope. Keeps-pure P tt, tt))

-- An approval gate with that bus, whose executors do nothing
abbrev pub gate : ApprovalService
gate = record { executors = λ _. some (λ id. pure id); memory_service = none; event_bus = some bus }

abbrev pub approval_of : ℕ → ApprovalStatus → Option ℕ → Option ℕ → Approval
approval_of id status user approved_at = record {
  id = id;
  restaurant_id = 1;
  domain = "reservation";
  action = "modify_reservation";
  agent_name = "reservation_agent";
  proposed_by_agent_run_id = 5;
  reason = Reason.modify_party 8 evening;
  parameters =
      Parameters.modify_reservation 30
        (record { party_size = none; requested_time = none; table_id = none; notes = some [] });
  risk_level = "MEDIUM";
  status = status;
  decided_by_user_id = user;
  approved_at = approved_at;
  rejected_at = none;
  expires_at = some 500;
  created_at = 0;
  execution_result = none;
  executed_at = none;
}

-- An approval that is overdue, and one that was granted
abbrev pub with_approvals : Session
with_approvals = record restaurant {
  approvals =
      approval_of 40 ApprovalStatus.pending none none
      ∷ approval_of 41 ApprovalStatus.approved (some 7) (some 600)
      ∷ [];
}

pub gate_keeps : (P : Session → Type 0) → PartnersKeep P gate
gate_keeps P = record {
  executors = λ domain executor e id.
      let same : (λ (id : ℕ). pure {S = Session} id) ≡ executor = cc e in
      subst (λ f. Keeps P (f id)) same (Keeps-pure P id);
  handlers = bus_keeps P;
}
