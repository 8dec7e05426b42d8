-- ===== src/Tests/Tables.antt =====
-- The choice of a table, and the gate of large parties, in the test restaurant.
use restaurant_sahayak.Base.{◌≡◌, refl, ◌<◌, Option, none, some, [], ◌∷◌, arith}
use restaurant_sahayak.Models.{Session}
use restaurant_sahayak.Models.Enums.{ReservationStatus}
use restaurant_sahayak.Models.Bookings.{Table, Changes}
use restaurant_sahayak.Models.Approvals.{Parameters, Reason}
use restaurant_sahayak.Settings.{default_settings}
use restaurant_sahayak.Reservations.Service.{
  ReservationService, Booking, choose_table, modify_reservation, cancel_reservation,
}
use restaurant_sahayak.Reservations.Tables.{answer, Smallest, choose_table-Smallest}
use restaurant_sahayak.Reservations.Gate.{Proposed, modify_waits, cancel_waits}
use restaurant_sahayak.Tests.{restaurant, context, gate, evening, reservation_at}

abbrev booking : Booking
booking = record {
  restaurant_id = 1;
  customer_id = 10;
  party_size = 2;
  requested_time = evening;
  table_id = none;
  duration_minutes = some 60;
  notes = none;
}

-- Each table of the restaurant seats someone.
abbrev SeatsSome : Table → Type 0
SeatsSome t = 0 < t.seat_capacity

choose_table-Smallest_example :
    (o : Option Table) × (choose_table booking 60 none restaurant ≡ answer booking o restaurant)
    × Smallest booking 60 SeatsSome restaurant o
choose_table-Smallest_example =
    choose_table-Smallest booking 60 SeatsSome restaurant (omega arith, (omega arith, tt))

-- A large party on the book
abbrev banquet : Session
banquet = record restaurant {
  reservations = reservation_at 32 ReservationStatus.booked 8 evening ∷ [];
}

abbrev service : ReservationService
service = record {
  approval_service = record gate { event_bus = none };
  settings = default_settings;
  event_bus = none;
}

abbrev fewer : Changes
fewer = record { party_size = some 2; requested_time = none; table_id = none; notes = none }

modify_waits_example :
    Proposed context 1
      (Parameters.modify_reservation 32 fewer)
      (Reason.modify_party 2 evening)
      banquet
      (modify_reservation service context 1 32 fewer banquet)
modify_waits_example =
    modify_waits service context 5 refl refl 1 32
      (reservation_at 32 ReservationStatus.booked 8 evening) banquet refl refl refl fewer refl

cancel_waits_example :
    Proposed context 1
      (Parameters.cancel_reservation 32 none)
      (Reason.cancel_party 8 evening)
      banquet
      (cancel_reservation service context 1 32 none banquet)
cancel_waits_example =
    cancel_waits service context 5 refl refl 1 32
      (reservation_at 32 ReservationStatus.booked 8 evening) banquet refl refl refl none refl
