-- ===== src/Reservations/Service/Create.antt =====
-- `create_reservation`.
use restaurant_sahayak.Base.{
  ℕ, Bool, false, not, ◌&&◌, ◌==◌, ltb, leb, Option, none, some, Text, find, head?, if◌then◌else◌,
}
use restaurant_sahayak.Errors.{
  customer_not_found, invalid_time, table_not_found, table_too_small, table_conflict,
  no_availability,
}
use restaurant_sahayak.Exec.{pure, raise, gets, raise_if, ◌>>=◌, ◌>>◌}
use restaurant_sahayak.Models.{Action, utcnow}
use restaurant_sahayak.Models.Enums.{ReservationStatus}
use restaurant_sahayak.Models.Bookings.{
  Customer, Table, Reservation, customer_row, table_row, reservation_row,
}
use restaurant_sahayak.Models.Approvals.{reservation_created}
use restaurant_sahayak.Settings.{ToolContext}
use restaurant_sahayak.Reservations.Repository.{table_has_conflict, find_available_tables, insert}
use restaurant_sahayak.Reservations.Service.Common.{
  ReservationService, booking_event, announce, duration_of,
}

-- The arguments of `create_reservation`
pub record Booking : Type 0 where
  pub restaurant_id : ℕ
  pub customer_id : ℕ
  pub party_size : ℕ
  pub requested_time : ℕ
  pub table_id : Option ℕ
  pub duration_minutes : Option ℕ
  pub notes : Option Text

-- `customer is None or customer.restaurant_id != restaurant_id`
abbrev pub owned_customer : ℕ → Option Customer → Bool
owned_customer restaurant_id none = false
owned_customer restaurant_id (some c) = c.restaurant_id == restaurant_id

abbrev pub active_table : ℕ → Table → Bool
active_table restaurant_id t = t.restaurant_id == restaurant_id && t.is_active

-- The tests on a table that the caller names
unfoldable pub check_table : Booking → ℕ → ℕ → Option Table → Action ℕ
check_table b duration table_id none s = raise (table_not_found table_id) s
check_table b duration table_id (some t) s =
    if not (active_table b.restaurant_id t)
    then raise (table_not_found table_id) s
    else if ltb t.seat_capacity b.party_size
    then raise (table_too_small t.label t.seat_capacity b.party_size) s
    else if table_has_conflict t.id b.requested_time duration none s.reservations
    then raise (table_conflict t.label) s
    else pure t.id s

-- The first of the tables that are free
unfoldable pub first_available : Booking → Option Table → Action ℕ
first_available b none = raise (no_availability b.party_size b.requested_time)
first_available b (some t) = pure t.id

-- `chosen_table_id`
unfoldable pub choose_table : Booking → ℕ → Option ℕ → Action ℕ
choose_table b duration none s =
    first_available b
      (head? (find_available_tables b.restaurant_id b.party_size b.requested_time duration s)) s
choose_table b duration (some table_id) s =
    check_table b duration table_id (find table_id s.tables) s

abbrev pub new_reservation : Booking → ToolContext → ℕ → ℕ → ℕ → Reservation
new_reservation b context duration table_id id = record {
  id = id;
  restaurant_id = b.restaurant_id;
  customer_id = b.customer_id;
  table_id = some table_id;
  party_size = b.party_size;
  requested_time = b.requested_time;
  duration_minutes = duration;
  status = ReservationStatus.booked;
  notes = b.notes;
  created_via = context.trigger_type;
}

-- `create_reservation`, from the choice of the table on
unfoldable pub book : ReservationService → Booking → ToolContext → ℕ → Action ℕ
book service b context duration = do
  table_id ← choose_table b duration b.table_id
  id ← insert (new_reservation b context duration table_id)
  announce service.event_bus (
      booking_event "reservation.created" b.restaurant_id id
        (reservation_created id b.customer_id table_id b.party_size b.requested_time)
        context.agent_run_id)
  pure id

-- `create_reservation`
unfoldable pub create_reservation : ReservationService → Booking → ToolContext → Action ℕ
create_reservation service b context = do
  customer ← gets (λ s. find b.customer_id s.customers)
  raise_if (not (owned_customer b.restaurant_id customer)) (customer_not_found b.customer_id)
  now ← utcnow
  raise_if (leb b.requested_time now) invalid_time
  book service b context (duration_of service.settings b.duration_minutes)
