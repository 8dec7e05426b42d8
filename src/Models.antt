-- ===== src/Models.antt =====
-- The mapped classes of app/models, and the session: the tables as the running transaction sees
-- them (`flush` writes are seen at once), the clock that `utcnow` reads, and the next identity
-- that `uuid4` gives. A row that an operation holds is its identity: the session's identity map
-- makes every holder of a row see what is written to it.
pub mod Enums
pub mod Bookings
pub mod Approvals
pub mod Stock
pub mod Memories
pub mod Runs
pub mod Staffing
use restaurant_sahayak.Base.{ℕ, ◌+◌, max, List, [], ◌∷◌, ◌++◌, update}
use restaurant_sahayak.Exec.{Exec, pure}
use Bookings.{Customer, Table, Reservation}
use Approvals.{Approval, Event}
use Stock.{InventoryItem, InventoryTransaction, PurchaseRequest}
use Memories.{Memory}
use Runs.{AgentRun, AgentMessage, WorkflowRun}
use Staffing.{Staff, StaffShift, ShiftAssignment}

pub record Session : Type 0 where
  pub now : ℕ
  pub next_id : ℕ
  pub customers : List Customer
  pub tables : List Table
  pub reservations : List Reservation
  pub approvals : List Approval
  pub events : List Event
  pub items : List InventoryItem
  pub transactions : List InventoryTransaction
  pub purchase_requests : List PurchaseRequest
  pub memories : List Memory
  pub agent_runs : List AgentRun
  pub messages : List AgentMessage
  pub workflow_runs : List WorkflowRun
  pub staff : List Staff
  pub shifts : List StaffShift
  pub assignments : List ShiftAssignment

abbrev pub Action : Type 0 → Type 0
Action = Exec Session

-- A database with no rows.
abbrev pub empty_session : Session
empty_session = record {
  now = 0;
  next_id = 0;
  customers = [];
  tables = [];
  reservations = [];
  approvals = [];
  events = [];
  items = [];
  transactions = [];
  purchase_requests = [];
  memories = [];
  agent_runs = [];
  messages = [];
  workflow_runs = [];
  staff = [];
  shifts = [];
  assignments = [];
}

-- ROLLBACK TO SAVEPOINT: the tables go back; the clock and the identities handed out do not.
abbrev pub rollback : Session → Session → Session
rollback before after = record before {
  now = after.now;
  next_id = max before.next_id after.next_id;
}

-- `utcnow()` of app/tools/base.py
abbrev pub utcnow : Action ℕ
utcnow s = pure s.now s

-- `uuid4()`
abbrev pub fresh : Action ℕ
fresh s = pure s.next_id (record s { next_id = s.next_id + 1 })
