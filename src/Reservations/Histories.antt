-- ===== src/Reservations/Histories.antt =====
-- The reservation book over a history of calls: no table is promised twice.
use restaurant_sahayak.Base.{
  ℕ, ◌+◌, ◌≡◌, ◌≢◌, Option, some, List, [], ◌∷◌, arith, find, find-id, Text, Pairwise-find,
  All-find, Bool-cases, inl, inr, ◌==◌, ==→eq,
}
use restaurant_sahayak.Exec.{Keeps, Keeps-bind, Keeps-pure, pure, ◌>>◌}
use restaurant_sahayak.Models.{Session, Action}
use restaurant_sahayak.Models.Bookings.{Reservation, Changes, reservation_row}
use restaurant_sahayak.Settings.{ToolContext}
use restaurant_sahayak.Events.{EventBus}
use restaurant_sahayak.Events.Preserves.{HandlersKeep}
use restaurant_sahayak.Reservations.Service.{
  ReservationService, Booking, create_reservation, modify_reservation, cancel_reservation,
}
use restaurant_sahayak.Reservations.Conflicts.{Apart, Apart-flip, Apart-Occupies, Occupies}
use restaurant_sahayak.Reservations.Bookings.{BookingsOk}
use restaurant_sahayak.Reservations.Steps.{BookingsOk-local}
use restaurant_sahayak.Reservations.Preserves.{
  create-BookingsOk, modify-BookingsOk, cancel-BookingsOk,
}

-- A call of the service by a client
pub data BookRequest : Type 0 where
  create : Booking → BookRequest
  modify : ℕ → ℕ → Changes → BookRequest
  cancel : ℕ → ℕ → Option Text → BookRequest

-- One call; what it returns is dropped.
pub handle : ReservationService → ToolContext → BookRequest → Action (Unit {0})
handle service context (create b) = create_reservation service b context >> pure tt
handle service context (modify restaurant_id id changes) =
    modify_reservation service context restaurant_id id changes >> pure tt
handle service context (cancel restaurant_id id reason) =
    cancel_reservation service context restaurant_id id reason >> pure tt

-- Calls one after the other, each a number of microseconds after the one before
unfoldable pub run : ReservationService → List (ℕ × ToolContext × BookRequest) → Session → Session
run service [] s = s
run service ((later, context, request) ∷ rest) s =
    run service rest (handle service context request (record s { now = s.now + later })).1

-- No table is promised to two reservations at one instant.
abbrev pub NoDoubleBooking : Session → Type 0
NoDoubleBooking s =
    (i j : ℕ) (x y : Reservation) (table_id instant : ℕ)
    → find i s.reservations ≡ some x
    → find j s.reservations ≡ some y
    → Occupies table_id instant x
    → Occupies table_id instant y
    → i ≡ j

pub BookingsOk-NoDoubleBooking : (s : Session) → BookingsOk s → NoDoubleBooking s
BookingsOk-NoDoubleBooking s h i j x y table_id instant ex ey ox oy = elim (Bool-cases (i == j)) [
  | inl same ↦ ==→eq i j same
  | inr other ↦ absurd (
      Apart-Occupies x y table_id instant
        (All-find (λ x. x.id ≢ j → Apart x y) i s.reservations x
          (Pairwise-find Apart Apart-flip j s.reservations y h.apart ey) ex
          (λ e. ground (arith, e, find-id i s.reservations x ex, other)))
        ox oy)
]

module _ (service : ReservationService)
    (handlers : (bus : EventBus) → service.event_bus ≡ some bus → HandlersKeep BookingsOk bus)
    (gate_handlers : (bus : EventBus)
      → service.approval_service.event_bus ≡ some bus
      → HandlersKeep BookingsOk bus) where
  handle-BookingsOk :
      (context : ToolContext) (request : BookRequest)
      → Keeps BookingsOk (handle service context request)
  unfolding handle
  handle-BookingsOk context (create b) =
      Keeps-bind BookingsOk (create_reservation service b context) _
        (create-BookingsOk service handlers b context) λ _. Keeps-pure BookingsOk tt
  handle-BookingsOk context (modify restaurant_id id changes) =
      Keeps-bind BookingsOk (modify_reservation service context restaurant_id id changes) _
        (modify-BookingsOk service handlers gate_handlers context restaurant_id id changes)
        λ _. Keeps-pure BookingsOk tt
  handle-BookingsOk context (cancel restaurant_id id reason) =
      Keeps-bind BookingsOk (cancel_reservation service context restaurant_id id reason) _
        (cancel-BookingsOk service handlers gate_handlers context restaurant_id id reason)
        λ _. Keeps-pure BookingsOk tt

  run-BookingsOk :
      (requests : List (ℕ × ToolContext × BookRequest)) (s : Session)
      → BookingsOk s
      → BookingsOk (run service requests s)
  unfolding run
  run-BookingsOk [] s h = h
  run-BookingsOk ((later, context, request) ∷ rest) s h =
      run-BookingsOk rest (handle service context request (record s { now = s.now + later })).1 (
        (handle-BookingsOk context request).at (record s { now = s.now + later })
          (BookingsOk-local.clock s (s.now + later) s.next_id (omega arith) h))

  -- From tables without a double booking, no sequence of bookings, modifications and
  -- cancellations promises a table to two reservations at one instant, whichever of the calls
  -- raise and whichever wait for an approval, if the handlers of the events leave the reservations
  -- apart.
  pub run-NoDoubleBooking :
      (requests : List (ℕ × ToolContext × BookRequest)) (s : Session)
      → BookingsOk s
      → NoDoubleBooking (run service requests s)
  run-NoDoubleBooking requests s h =
      BookingsOk-NoDoubleBooking (run service requests s) (run-BookingsOk requests s h)
