-- ===== src/Agents/Reservations.antt =====
-- The tools of the reservation agent leave the reservations of each table apart.
use restaurant_sahayak.Base.{ℕ, ◌≡◌, some, Issued-mono, arith}
use restaurant_sahayak.Exec.{Keeps, Keeps-bind, Keeps-pure, Keeps-gets}
use restaurant_sahayak.Models.Bookings.{reservation_row}
use restaurant_sahayak.Settings.{ToolContext, Outcome, done, pending_approval}
use restaurant_sahayak.Events.{EventBus}
use restaurant_sahayak.Events.Preserves.{HandlersKeep}
use restaurant_sahayak.ToolCalling.Preserves.{ToolsKeep}
use restaurant_sahayak.ToolCalling.Sessions.{IgnoresRuns}
use restaurant_sahayak.Reservations.Repository.{ReservationFilter, list_reservations}
use restaurant_sahayak.Reservations.Service.{
  ReservationService, get_reservations, find_available_table, create_reservation,
  modify_reservation, cancel_reservation,
}
use restaurant_sahayak.Reservations.Bookings.{BookingsOk}
use restaurant_sahayak.Reservations.Preserves.{
  create-BookingsOk, modify-BookingsOk, cancel-BookingsOk,
}
use restaurant_sahayak.Tools.{tool_of-Keeps, plain}
use restaurant_sahayak.Tools.Reservations.{
  ReservationJson, print_row, print_outcome, run_get, run_find, run_create, run_modify, run_cancel,
  reservation_tools, booking_of, FindAvailableTableInput,
}

pub BookingsOk-runs : IgnoresRuns BookingsOk
BookingsOk-runs s runs messages n le h = record {
  issued = Issued-mono s.next_id n s.reservations le h.issued;
  distinct = h.distinct;
  apart = h.apart;
}

module _ (json : ReservationJson) (service : ReservationService)
    (handlers : (bus : EventBus) → service.event_bus ≡ some bus → HandlersKeep BookingsOk bus)
    (gate_handlers : (bus : EventBus)
      → service.approval_service.event_bus ≡ some bus
      → HandlersKeep BookingsOk bus) where
  print_row-BookingsOk : (id : ℕ) → Keeps BookingsOk (print_row json id)
  unfolding print_row
  print_row-BookingsOk id = record { at = λ s h. ground arith }

  print_outcome-BookingsOk : (outcome : Outcome) → Keeps BookingsOk (print_outcome json outcome)
  unfolding print_outcome
  print_outcome-BookingsOk (done id) = print_row-BookingsOk id
  print_outcome-BookingsOk (pending_approval id summary) = Keeps-pure BookingsOk _

  run_get-BookingsOk :
      (input : ReservationFilter) (context : ToolContext)
      → Keeps BookingsOk (run_get json service input context)
  unfolding run_get get_reservations
  run_get-BookingsOk input context =
      Keeps-bind BookingsOk (get_reservations context.restaurant_id input) _
        (Keeps-gets BookingsOk (list_reservations context.restaurant_id input))
        λ rows. Keeps-pure BookingsOk (plain (json.print_reservations rows))

  run_find-BookingsOk :
      (input : FindAvailableTableInput) (context : ToolContext)
      → Keeps BookingsOk (run_find json service input context)
  unfolding run_find find_available_table
  run_find-BookingsOk input context =
      Keeps-bind BookingsOk
        (find_available_table service context.restaurant_id input.party_size input.requested_time
          input.duration_minutes)
        _ (record { at = λ s h. h })
        λ tables. Keeps-pure BookingsOk (plain (json.print_tables tables))

  -- Every tool of the agent keeps the reservations of each table apart.
  pub reservation_tools-BookingsOk : ToolsKeep BookingsOk (reservation_tools json service)
  unfolding reservation_tools run_create run_modify run_cancel
  reservation_tools-BookingsOk = (
    tool_of-Keeps BookingsOk _ _ _ _ run_get-BookingsOk,
    (
      tool_of-Keeps BookingsOk _ _ _ _ run_find-BookingsOk,
      (
        tool_of-Keeps BookingsOk _ _ _ _ (λ input context.
            Keeps-bind BookingsOk (create_reservation service (booking_of input context) context) _
              (create-BookingsOk service handlers (booking_of input context) context)
              print_row-BookingsOk),
        (
          tool_of-Keeps BookingsOk _ _ _ _ (λ input context.
              Keeps-bind BookingsOk
                (modify_reservation service context context.restaurant_id input.reservation_id
                  input.changes)
                _
                (modify-BookingsOk service handlers gate_handlers context context.restaurant_id
                  input.reservation_id input.changes)
                print_outcome-BookingsOk),
          (
            tool_of-Keeps BookingsOk _ _ _ _ (λ input context.
                Keeps-bind BookingsOk
                  (cancel_reservation service context context.restaurant_id input.reservation_id
                    input.reason)
                  _
                  (cancel-BookingsOk service handlers gate_handlers context context.restaurant_id
                    input.reservation_id input.reason)
                  print_outcome-BookingsOk),
            tt,
          ),
        ),
      ),
    ),
  )
