-- ===== src/Reservations/Service/Approved.antt =====
-- `execute_approved_action`, the executor of the domain "reservation".
use restaurant_sahayak.Base.{ℕ, Option, none, some, Text, find}
use restaurant_sahayak.Errors.{key_error, reservation_not_found}
use restaurant_sahayak.Exec.{pure, throw, raise, ◌>>=◌, ◌>>◌}
use restaurant_sahayak.Models.{Action}
use restaurant_sahayak.Models.Bookings.{
  Reservation, Changes, customer_row, table_row, reservation_row,
}
use restaurant_sahayak.Models.Approvals.{Parameters, reservation_modified, reservation_cancelled}
use restaurant_sahayak.Approvals.{get_row}
use restaurant_sahayak.Reservations.Repository.{save}
use restaurant_sahayak.Reservations.Service.Common.{ReservationService, booking_event, announce}
use restaurant_sahayak.Reservations.Service.Change.{apply_modification, as_modified, as_cancelled}

-- The two branches of `execute_approved_action`, on the row that was found
unfoldable pub cancel_approved :
    ReservationService → ℕ → ℕ → Option Text → Option Reservation → Action ℕ
cancel_approved service run_id reservation_id reason none =
    raise (reservation_not_found reservation_id)
cancel_approved service run_id reservation_id reason (some r) = do
  id ← save r.id (as_cancelled reason)
  announce service.event_bus (
      booking_event "reservation.cancelled" r.restaurant_id id (reservation_cancelled id reason)
        (some run_id))
  pure id

unfoldable pub modify_approved :
    ReservationService → ℕ → ℕ → Changes → Option Reservation → Action ℕ
modify_approved service run_id reservation_id changes none =
    raise (reservation_not_found reservation_id)
modify_approved service run_id reservation_id changes (some r) = do
  apply_modification r changes
  id ← save r.id (as_modified changes)
  announce service.event_bus (
      booking_event "reservation.modified" r.restaurant_id id (reservation_modified id changes)
        (some run_id))
  pure id

-- The body of `execute_approved_action`, by the action of the parameters. A dict of another shape
-- has no key "reservation_id".
unfoldable pub execute_parameters : ReservationService → ℕ → Parameters → Action ℕ
execute_parameters service run_id (Parameters.cancel_reservation reservation_id reason) s =
    cancel_approved service run_id reservation_id reason (find reservation_id s.reservations) s
execute_parameters service run_id (Parameters.modify_reservation reservation_id changes) s =
    modify_approved service run_id reservation_id changes (find reservation_id s.reservations) s
execute_parameters service run_id _ s = throw (key_error "reservation_id") s

-- `execute_approved_action`, the executor of the domain "reservation"
unfoldable pub execute_approved_action : ReservationService → ℕ → Action ℕ
execute_approved_action service approval_id = do
  a ← get_row approval_id
  execute_parameters service a.proposed_by_agent_run_id a.parameters
