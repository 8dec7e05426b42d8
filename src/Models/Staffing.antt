-- ===== src/Models/Staffing.antt =====
-- Staff, shifts and assignments (app/models/staff.py, staffing.py).
use restaurant_sahayak.Base.{ℕ, String, Bool, HasId}

pub record Staff : Type 0 where
  pub id : ℕ
  pub restaurant_id : ℕ
  pub name : String
  pub role : String
  pub is_active : Bool

pub record StaffShift : Type 0 where
  pub id : ℕ
  pub restaurant_id : ℕ
  pub start_at : ℕ
  pub end_at : ℕ

pub record ShiftAssignment : Type 0 where
  pub id : ℕ
  pub shift_id : ℕ
  pub staff_id : ℕ

instance abbrev pub staff_row : HasId Staff
staff_row = record { id_of = λ r. r.id }

instance abbrev pub shift_row : HasId StaffShift
shift_row = record { id_of = λ r. r.id }
