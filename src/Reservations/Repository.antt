-- ===== src/Reservations/Repository.antt =====
-- `ReservationRepository`: the conflict test, the search for tables, and the flushes.
use restaurant_sahayak.Base.{
  order_by, ℕ, ◌+◌, String, Bool, true, false, not, ◌&&◌, ◌==◌, str_eq, ltb, leb, Option, none,
  some, List, [], ◌∷◌, ◌++◌, any, select, find, update, if◌then◌else◌,
}
use restaurant_sahayak.Errors.{integrity_error, other}
use restaurant_sahayak.Exec.{pure, throw}
use restaurant_sahayak.Models.{Session, Action}
use restaurant_sahayak.Models.Enums.{
  TriggerType, manager_request, event, scheduled, ReservationStatus, is_active_status,
}
use restaurant_sahayak.Models.Bookings.{Table, Reservation, minutes, table_row, reservation_row}

-- The test in the `for` loop of `table_has_conflict`
abbrev pub overlaps : ℕ → ℕ → Reservation → Bool
overlaps requested_time duration_minutes other_row =
    ltb other_row.requested_time (requested_time + minutes duration_minutes)
    && ltb requested_time (other_row.requested_time + minutes other_row.duration_minutes)

abbrev pub is_at : ℕ → Option ℕ → Bool
is_at table_id none = false
is_at table_id (some t) = t == table_id

abbrev pub is_excluded : Option ℕ → ℕ → Bool
is_excluded none id = false
is_excluded (some x) id = id == x

-- Its WHERE clause
abbrev pub is_rival : ℕ → Option ℕ → Reservation → Bool
is_rival table_id exclude_reservation_id r =
    is_at table_id r.table_id
    && is_active_status r.status
    && not (is_excluded exclude_reservation_id r.id)

-- `table_has_conflict`
unfoldable pub table_has_conflict : ℕ → ℕ → ℕ → Option ℕ → List Reservation → Bool
table_has_conflict table_id requested_time duration_minutes exclude_reservation_id rows =
    any (overlaps requested_time duration_minutes)
      (select (is_rival table_id exclude_reservation_id) rows)

-- ORDER BY seat_capacity
abbrev pub insert_by_capacity : Table → List Table → List Table
insert_by_capacity t [] = t ∷ []
insert_by_capacity t (u ∷ us) =
    if leb t.seat_capacity u.seat_capacity then t ∷ u ∷ us else u ∷ insert_by_capacity t us

abbrev pub order_by_capacity : List Table → List Table
order_by_capacity [] = []
order_by_capacity (t ∷ ts) = insert_by_capacity t (order_by_capacity ts)

-- The WHERE clause of `find_available_tables`
abbrev pub can_seat : ℕ → ℕ → Table → Bool
can_seat restaurant_id party_size t =
    t.restaurant_id == restaurant_id && t.is_active && leb party_size t.seat_capacity

-- `find_available_tables`
unfoldable pub find_available_tables : ℕ → ℕ → ℕ → ℕ → Session → List Table
find_available_tables restaurant_id party_size requested_time duration_minutes s =
    select (λ t. not (table_has_conflict t.id requested_time duration_minutes none s.reservations))
      (order_by_capacity (select (can_seat restaurant_id party_size) s.tables))

-- The CHECK constraints of the table `reservations`, by name
abbrev pub valid_origin : TriggerType → Bool
valid_origin manager_request = true
valid_origin event = true
valid_origin scheduled = false

abbrev pub violated : Reservation → Option String
violated r =
    if not (valid_origin r.created_via)
    then some "ck_reservations_created_via_valid"
    else if leb r.duration_minutes 0
    then some "ck_reservations_duration_positive"
    else if leb r.party_size 0
    then some "ck_reservations_party_size_positive"
    else none

-- A flush of this row, with the constraint that it violates
abbrev pub put_row : (ℕ → Reservation) → Option String → Action ℕ
put_row row (some name) s = throw (integrity_error name) s
put_row row none s =
    pure s.next_id
      (record s { reservations = s.reservations ++ row s.next_id ∷ []; next_id = s.next_id + 1 })

-- `create`: a row that violates a constraint is refused by the database.
unfoldable pub insert : (ℕ → Reservation) → Action ℕ
insert row s = put_row row (violated (row s.next_id)) s

abbrev pub write_row : ℕ → (Reservation → Reservation) → Option String → Action ℕ
write_row id f (some name) s = throw (integrity_error name) s
write_row id f none s = pure id (record s { reservations = update id f s.reservations })

abbrev pub flush_row : ℕ → (Reservation → Reservation) → Option Reservation → Action ℕ
flush_row id f none s = throw (other "ObjectDeletedError") s
flush_row id f (some r) s = write_row id f (violated (f r)) s

-- Assignments to a row, and `save`
unfoldable pub save : ℕ → (Reservation → Reservation) → Action ℕ
save id f s = flush_row id f (find id s.reservations) s

-- The arguments of `list`
pub record ReservationFilter : Type 0 where
  pub date_from : Option ℕ
  pub date_to : Option ℕ
  pub status : Option String
  pub customer_id : Option ℕ

-- The text of a status in its column
abbrev pub status_text : ReservationStatus → String
status_text ReservationStatus.requested = "requested"
status_text ReservationStatus.booked = "booked"
status_text ReservationStatus.modified = "modified"
status_text ReservationStatus.cancelled = "cancelled"
status_text ReservationStatus.completed = "completed"
status_text ReservationStatus.no_show = "no_show"

-- `if x is not None: stmt = stmt.where(...)`
abbrev pub if_given {ℓ} : {A : Type ℓ} → (A → Bool) → Option A → Bool
if_given p none = true
if_given p (some x) = p x

abbrev pub is_listed : ℕ → ReservationFilter → Reservation → Bool
is_listed restaurant_id f r =
    r.restaurant_id == restaurant_id
    && if_given (λ t. leb t r.requested_time) f.date_from
    && if_given (λ t. leb r.requested_time t) f.date_to
    && if_given (str_eq (status_text r.status)) f.status
    && if_given (λ c. r.customer_id == c) f.customer_id

-- ORDER BY requested_time
abbrev pub by_time : Reservation → Reservation → Bool
by_time x y = leb x.requested_time y.requested_time

-- `list`
unfoldable pub list_reservations : ℕ → ReservationFilter → Session → List Reservation
list_reservations restaurant_id f s =
    order_by by_time (select (is_listed restaurant_id f) s.reservations)
