-- ===== src/Tests/Reservations.antt =====
-- The reservation book of the test restaurant.
use restaurant_sahayak.Base.{
  List, Option, [], arith, find, none, refl, some, true, update, ℕ, ◌∷◌, ◌≡◌,
}
use restaurant_sahayak.Errors.{ok}
use restaurant_sahayak.Models.{Session}
use restaurant_sahayak.Models.Enums.{is_active_status, ReservationStatus, ApprovalStatus}
use restaurant_sahayak.Models.Bookings.{Changes, Reservation, reservation_row}
use restaurant_sahayak.Models.Approvals.{Parameters, success, approval_row}
use restaurant_sahayak.Settings.{default_settings, ToolContext}
use restaurant_sahayak.Reservations.Service.{
  ReservationService, Booking, execute_parameters, as_modified,
}
use restaurant_sahayak.Reservations.Bookings.{BookingsOk}
use restaurant_sahayak.Reservations.Histories.{
  BookRequest, run, NoDoubleBooking, run-NoDoubleBooking,
}
use restaurant_sahayak.Reservations.Executor.{execute_parameters-BookingsOk}
use restaurant_sahayak.Approvals.{ApprovalService, approve, approved_by, with_result}
use restaurant_sahayak.Executors.{build_executors}
use restaurant_sahayak.Executors.Reservations.{approve_reactivates}
use restaurant_sahayak.Tests.{
  with_approvals, approval_of, restaurant, context, bus, bus_keeps, gate, evening, reservation_at,
}

abbrev service : ReservationService
service = record { approval_service = gate; settings = default_settings; event_bus = some bus }

abbrev quiet_service : ReservationService
quiet_service = record service { event_bus = none }

abbrev booking : Booking
booking = record {
  restaurant_id = 1;
  customer_id = 10;
  party_size = 2;
  requested_time = evening;
  table_id = none;
  duration_minutes = some 60;
  notes = none;
}

abbrev changes_of : Option ℕ → Changes
changes_of table_id = record {
  party_size = none;
  requested_time = none;
  table_id = table_id;
  notes = some (65 ∷ []);
}

restaurant-BookingsOk : BookingsOk restaurant
restaurant-BookingsOk = record {
  issued = ground arith;
  distinct = ground arith;
  apart = ground arith;
}

-- A booking goes to the second table, as the first is taken; a second one at that time finds none.
abbrev requests : List (ℕ × ToolContext × BookRequest)
requests =
    (1, context, BookRequest.create booking)
    ∷ (1, context, BookRequest.create booking)
    ∷ (1, context, BookRequest.modify 1 31 (changes_of (some 21)))
    ∷ (1, context, BookRequest.cancel 1 31 none)
    ∷ []

run-NoDoubleBooking_example : NoDoubleBooking (run service requests restaurant)
run-NoDoubleBooking_example =
    run-NoDoubleBooking service (bus_keeps BookingsOk) (bus_keeps BookingsOk) requests restaurant
      restaurant-BookingsOk

execute_parameters-BookingsOk_example :
    BookingsOk
      (execute_parameters service 5
        (Parameters.modify_reservation 31 (changes_of (some 21)))
        restaurant).1
execute_parameters-BookingsOk_example =
    execute_parameters-BookingsOk service (bus_keeps BookingsOk) 5
      (Parameters.modify_reservation 31 (changes_of (some 21))) restaurant
      (λ r e still. ground arith) restaurant-BookingsOk

abbrev wired : ApprovalService
wired = record {
  executors = build_executors (some quiet_service) none;
  memory_service = none;
  event_bus = none;
}

abbrev empty_note : Changes
empty_note = record { party_size = none; requested_time = none; table_id = none; notes = some [] }

abbrev cancelled_row : Reservation
cancelled_row = reservation_at 30 ReservationStatus.cancelled 2 evening

-- The reservations once the modification of the cancelled one is approved
abbrev reactivated : Session
reactivated = record with_approvals {
  approvals =
      update 40 (with_result (success 30) 1000)
        (update 40 (approved_by 7 1000) with_approvals.approvals);
  reservations = update 30 (as_modified empty_note) with_approvals.reservations;
}

approve_reactivates_example :
    (approve wired 40 7 with_approvals ≡ (ok 40, reactivated))
    × (find 30 (update 30 (as_modified empty_note) with_approvals.reservations)
        ≡ some (as_modified empty_note cancelled_row))
    × (is_active_status (as_modified empty_note cancelled_row).status ≡ true)
approve_reactivates_example =
    approve_reactivates quiet_service none wired 40 7 30 empty_note
      (approval_of 40 ApprovalStatus.pending none none) cancelled_row with_approvals refl refl refl
      refl refl refl refl refl refl refl refl

-- Two reservations are then promised table 20 at that time.
promised_twice : NoDoubleBooking reactivated → ⊥
promised_twice h =
    let same =
      h 30 31 (as_modified empty_note cancelled_row)
        (reservation_at 31 ReservationStatus.booked 4 evening) 20 evening refl refl
        (refl, refl, omega arith, omega arith) (refl, refl, omega arith, omega arith) in
    omega arith
