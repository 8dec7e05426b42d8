-- ===== src/Reservations/Service/Change.antt =====
-- `modify_reservation`, `cancel_reservation` and `_apply_modification`.
use restaurant_sahayak.Base.{
  ℕ, String, Bool, not, ◌||◌, ◌==◌, ltb, is_some, or_else, Option, none, some, [], ◌∷◌, ◌++◌, Text,
  codes, strip, truthy, find, if◌then◌else◌,
}
use restaurant_sahayak.Errors.{
  table_not_found, table_too_small, table_conflict, reservation_not_found,
  reservation_not_modifiable, reservation_not_cancellable,
}
use restaurant_sahayak.Exec.{pure, raise, raise_if, ◌>>=◌, ◌>>◌}
use restaurant_sahayak.Models.{Action}
use restaurant_sahayak.Models.Enums.{ReservationStatus, is_active_status}
use restaurant_sahayak.Models.Bookings.{
  Table, Reservation, Changes, customer_row, table_row, reservation_row,
}
use restaurant_sahayak.Models.Approvals.{
  Parameters, Reason, modify_party, cancel_party, reservation_modified, reservation_cancelled,
}
use restaurant_sahayak.Settings.{ToolContext, Outcome, done, pending_approval, require_agent_run}
use restaurant_sahayak.Approvals.{create_approval_request}
use restaurant_sahayak.Reservations.Repository.{table_has_conflict, save}
use restaurant_sahayak.Reservations.Service.Common.{
  ReservationService, booking_event, announce, is_high_impact_party,
}

-- `reservation is None or reservation.restaurant_id != restaurant_id`
abbrev pub own_reservation : ℕ → ℕ → Option Reservation → Action Reservation
own_reservation restaurant_id id none = raise (reservation_not_found id)
own_reservation restaurant_id id (some r) =
    if r.restaurant_id == restaurant_id then pure r else raise (reservation_not_found id)

unfoldable pub get_own : ℕ → ℕ → Action Reservation
get_own restaurant_id id s = own_reservation restaurant_id id (find id s.reservations) s

-- The tests of `_apply_modification` on the table that the reservation will have
unfoldable pub check_new_table : Reservation → Changes → ℕ → Option Table → Action (Unit {0})
check_new_table r changes table_id none s = raise (table_not_found table_id) s
check_new_table r changes table_id (some t) s =
    let party_size = or_else changes.party_size r.party_size in
    if not t.is_active
    then raise (table_not_found table_id) s
    else if ltb t.seat_capacity party_size
    then raise (table_too_small t.label t.seat_capacity party_size) s
    else if table_has_conflict table_id (or_else changes.requested_time r.requested_time)
        r.duration_minutes (some r.id) s.reservations
    then raise (table_conflict t.label) s
    else pure tt s

-- `"table_id" in changes or "requested_time" in changes or "party_size" in changes`
abbrev pub moves : Changes → Bool
moves changes =
    is_some changes.table_id || is_some changes.requested_time || is_some changes.party_size

abbrev pub table_after : Changes → Reservation → Option ℕ
table_after changes r = elim changes.table_id [ some t ↦ some t | none ↦ r.table_id ]

abbrev pub notes_after : Changes → Reservation → Option Text
notes_after changes r = elim changes.notes [ some n ↦ some n | none ↦ r.notes ]

-- The assignments of `_apply_modification`, which wait for the next flush
abbrev pub modified : Changes → Reservation → Reservation
modified changes r = record r {
  party_size = or_else changes.party_size r.party_size;
  requested_time = or_else changes.requested_time r.requested_time;
  table_id = table_after changes r;
  notes = notes_after changes r;
}

abbrev pub check_move : Reservation → Changes → Option ℕ → Action (Unit {0})
check_move r changes none s = pure tt s
check_move r changes (some table_id) s =
    if moves changes
    then check_new_table r changes table_id (find table_id s.tables) s
    else pure tt s

-- `_apply_modification`, up to its assignments
unfoldable pub apply_modification : Reservation → Changes → Action (Unit {0})
apply_modification r changes = check_move r changes (table_after changes r)

abbrev pub as_modified : Changes → Reservation → Reservation
as_modified changes r = record (modified changes r) { status = ReservationStatus.modified }

-- `f"{notes or ''}\nCancellation reason: {reason}".strip()`, where there is a reason
abbrev pub cancellation_notes : Option Text → Option Text → Option Text
cancellation_notes none notes = notes
cancellation_notes (some reason) notes =
    if truthy reason
    then some (strip (or_else notes [] ++ (10 ∷ codes "Cancellation reason: ") ++ reason))
    else notes

abbrev pub as_cancelled : Option Text → Reservation → Reservation
as_cancelled reason r = record r {
  status = ReservationStatus.cancelled;
  notes = cancellation_notes reason r.notes;
}

-- The proposal of a gated operation, and its output
unfoldable pub propose :
    ReservationService → ToolContext → ℕ → String → Parameters → Reason → Action Outcome
propose service context restaurant_id action parameters reason = do
  agent_run_id ← require_agent_run context
  approval_id ← create_approval_request service.approval_service (record {
    restaurant_id = restaurant_id;
    domain = "reservation";
    action = action;
    agent_name = context.acting_agent;
    proposed_by_agent_run_id = agent_run_id;
    parameters = parameters;
    reason = reason;
    risk_level = "MEDIUM";
    expires_at = none;
  })
  pure (pending_approval approval_id reason)

-- What `modify_reservation` does at once, when the change is not gated
unfoldable pub modify_now :
    ReservationService → ToolContext → ℕ → Reservation → Changes → Action Outcome
modify_now service context restaurant_id r changes = do
  apply_modification r changes
  id ← save r.id (as_modified changes)
  announce service.event_bus (
      booking_event "reservation.modified" restaurant_id id (reservation_modified id changes)
        context.agent_run_id)
  pure (done id)

-- The gate of `modify_reservation`: a party that is or was large needs an approval.
unfoldable pub modify_gated :
    ReservationService → ToolContext → ℕ → Reservation → Changes → Action Outcome
modify_gated service context restaurant_id r changes =
    let party_size = or_else changes.party_size r.party_size in
    if is_high_impact_party service.settings party_size
      || is_high_impact_party service.settings r.party_size
    then propose service context restaurant_id "modify_reservation"
        (Parameters.modify_reservation r.id changes) (modify_party party_size r.requested_time)
    else modify_now service context restaurant_id r changes

-- `modify_reservation`; `changes` holds the arguments that are not `None`.
unfoldable pub modify_reservation :
    ReservationService → ToolContext → ℕ → ℕ → Changes → Action Outcome
modify_reservation service context restaurant_id reservation_id changes = do
  r ← get_own restaurant_id reservation_id
  raise_if (not (is_active_status r.status)) (reservation_not_modifiable r.status)
  modify_gated service context restaurant_id r changes

unfoldable pub cancel_now :
    ReservationService → ToolContext → ℕ → Reservation → Option Text → Action Outcome
cancel_now service context restaurant_id r reason = do
  id ← save r.id (as_cancelled reason)
  announce service.event_bus (
      booking_event "reservation.cancelled" restaurant_id id (reservation_cancelled id reason)
        context.agent_run_id)
  pure (done id)

-- The gate of `cancel_reservation`
unfoldable pub cancel_gated :
    ReservationService → ToolContext → ℕ → Reservation → Option Text → Action Outcome
cancel_gated service context restaurant_id r reason =
    if is_high_impact_party service.settings r.party_size
    then propose service context restaurant_id "cancel_reservation"
        (Parameters.cancel_reservation r.id reason) (cancel_party r.party_size r.requested_time)
    else cancel_now service context restaurant_id r reason

-- `cancel_reservation`
unfoldable pub cancel_reservation :
    ReservationService → ToolContext → ℕ → ℕ → Option Text → Action Outcome
cancel_reservation service context restaurant_id reservation_id reason = do
  r ← get_own restaurant_id reservation_id
  raise_if (not (is_active_status r.status)) (reservation_not_cancellable r.status)
  cancel_gated service context restaurant_id r reason
