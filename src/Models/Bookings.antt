-- ===== src/Models/Bookings.antt =====
-- Customers, tables and reservations (app/models/customer.py, table.py, reservation.py).
-- Identities (UUIDs) are numbers; a datetime is a number of microseconds.
use restaurant_sahayak.Base.{ℕ, String, Bool, Option, Text, HasId, ◌*◌}
use restaurant_sahayak.Models.Enums.{ReservationStatus, TriggerType}

pub record Customer : Type 0 where
  pub id : ℕ
  pub restaurant_id : ℕ
  pub name : String
  pub phone : Option String
  pub email : Option String
  pub is_active : Bool

-- Physical table `restaurant_tables`
pub record Table : Type 0 where
  pub id : ℕ
  pub restaurant_id : ℕ
  pub label : String
  pub seat_capacity : ℕ
  pub is_active : Bool

pub record Reservation : Type 0 where
  pub id : ℕ
  pub restaurant_id : ℕ
  pub customer_id : ℕ
  pub table_id : Option ℕ
  pub party_size : ℕ
  pub requested_time : ℕ
  pub duration_minutes : ℕ
  pub status : ReservationStatus
  pub notes : Option Text
  pub created_via : TriggerType

-- The `changes` dict of a modification: a key is there if its field is `some`. Times and ids go
-- through `isoformat`/`fromisoformat` and `str`/`uuid.UUID`, which are inverse to each other.
pub record Changes : Type 0 where
  pub party_size : Option ℕ
  pub requested_time : Option ℕ
  pub table_id : Option ℕ
  pub notes : Option Text

-- `timedelta(minutes=n)`
abbrev pub minutes : ℕ → ℕ
minutes n = n * 60000000

instance abbrev pub customer_row : HasId Customer
customer_row = record { id_of = λ r. r.id }

instance abbrev pub table_row : HasId Table
table_row = record { id_of = λ r. r.id }

instance abbrev pub reservation_row : HasId Reservation
reservation_row = record { id_of = λ r. r.id }
