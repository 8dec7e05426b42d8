-- ===== src/Tools/Reservations.antt =====
-- The reservation tools (app/tools/reservation_tools.py) with the inputs of
-- app/schemas/reservation.py.
use restaurant_sahayak.Base.{
  ℕ, String, Bool, true, ◌&&◌, ltb, Option, none, some, List, [], ◌∷◌, Text, find,
}
use restaurant_sahayak.Errors.{Result, other}
use restaurant_sahayak.Exec.{pure, throw, ◌>>=◌}
use restaurant_sahayak.Models.{Action}
use restaurant_sahayak.Models.Bookings.{Table, Reservation, Changes, reservation_row}
use restaurant_sahayak.Models.Approvals.{Reason}
use restaurant_sahayak.Settings.{ToolContext, Outcome, done, pending_approval}
use restaurant_sahayak.ToolCalling.{Tool, ToolOutput}
use restaurant_sahayak.Reservations.Repository.{ReservationFilter, if_given}
use restaurant_sahayak.Reservations.Service.{
  ReservationService, Booking, get_reservations, find_available_table, create_reservation,
  modify_reservation, cancel_reservation,
}
use restaurant_sahayak.Tools.{tool_of, plain, pending}

pub record FindAvailableTableInput : Type 0 where
  pub party_size : ℕ
  pub requested_time : ℕ
  pub duration_minutes : Option ℕ

pub record CreateReservationInput : Type 0 where
  pub customer_id : ℕ
  pub party_size : ℕ
  pub requested_time : ℕ
  pub table_id : Option ℕ
  pub duration_minutes : Option ℕ
  pub notes : Option Text

-- The fields but the first are the `changes` of the service.
pub record ModifyReservationInput : Type 0 where
  pub reservation_id : ℕ
  pub changes : Changes

pub record CancelReservationInput : Type 0 where
  pub reservation_id : ℕ
  pub reason : Option Text

-- `Field(gt=0)`
abbrev pub is_positive : ℕ → Bool
is_positive n = ltb 0 n

abbrev pub find_constraints : FindAvailableTableInput → Bool
find_constraints i = is_positive i.party_size && if_given is_positive i.duration_minutes

abbrev pub create_constraints : CreateReservationInput → Bool
create_constraints i = is_positive i.party_size && if_given is_positive i.duration_minutes

abbrev pub modify_constraints : ModifyReservationInput → Bool
modify_constraints i = if_given is_positive i.changes.party_size

-- The arguments that the tool passes to `create_reservation`
abbrev pub booking_of : CreateReservationInput → ToolContext → Booking
booking_of i context = record {
  restaurant_id = context.restaurant_id;
  customer_id = i.customer_id;
  party_size = i.party_size;
  requested_time = i.requested_time;
  table_id = i.table_id;
  duration_minutes = i.duration_minutes;
  notes = i.notes;
}

-- How pydantic reads the inputs and prints the outputs
pub record ReservationJson : Type 0 where
  pub read_get : String → Result ReservationFilter
  pub read_find : String → Result FindAvailableTableInput
  pub read_create : String → Result CreateReservationInput
  pub read_modify : String → Result ModifyReservationInput
  pub read_cancel : String → Result CancelReservationInput
  pub print_reservation : Reservation → String
  pub print_reservations : List Reservation → String
  pub print_tables : List Table → String
  pub print_pending : ℕ → Reason → String

-- `ReservationDTO.model_validate(r)` of the row that was returned
unfoldable pub print_row : ReservationJson → ℕ → Action ToolOutput
print_row json id s = elim (find id s.reservations) [
  | none ↦ throw (other "ObjectDeletedError") s
  | some r ↦ pure (plain (json.print_reservation r)) s
]

-- What a gated method returned
unfoldable pub print_outcome : ReservationJson → Outcome → Action ToolOutput
print_outcome json (done id) = print_row json id
print_outcome json (pending_approval id summary) = pure (pending (json.print_pending id summary) id)

module _ (json : ReservationJson) (service : ReservationService) where
  -- `GetReservationsTool.run`
  unfoldable pub run_get : ReservationFilter → ToolContext → Action ToolOutput
  run_get input context = do
    rows ← get_reservations context.restaurant_id input
    pure (plain (json.print_reservations rows))

  -- `FindAvailableTableTool.run`
  unfoldable pub run_find : FindAvailableTableInput → ToolContext → Action ToolOutput
  run_find input context = do
    tables ←
        find_available_table service context.restaurant_id input.party_size input.requested_time
          input.duration_minutes
    pure (plain (json.print_tables tables))

  -- `CreateReservationTool.run`
  unfoldable pub run_create : CreateReservationInput → ToolContext → Action ToolOutput
  run_create input context = do
    id ← create_reservation service (booking_of input context) context
    print_row json id

  -- `ModifyReservationTool.run`
  unfoldable pub run_modify : ModifyReservationInput → ToolContext → Action ToolOutput
  run_modify input context = do
    outcome ←
        modify_reservation service context context.restaurant_id input.reservation_id input.changes
    print_outcome json outcome

  -- `CancelReservationTool.run`
  unfoldable pub run_cancel : CancelReservationInput → ToolContext → Action ToolOutput
  run_cancel input context = do
    outcome ←
        cancel_reservation service context context.restaurant_id input.reservation_id input.reason
    print_outcome json outcome

  -- The `tools` of the reservation agent in `build_agent_stack`
  unfoldable pub reservation_tools : List Tool
  reservation_tools =
      tool_of "get_reservations" json.read_get (λ _. true) run_get
      ∷ tool_of "find_available_table" json.read_find find_constraints run_find
      ∷ tool_of "create_reservation" json.read_create create_constraints run_create
      ∷ tool_of "modify_reservation" json.read_modify modify_constraints run_modify
      ∷ tool_of "cancel_reservation" json.read_cancel (λ _. true) run_cancel
      ∷ []
