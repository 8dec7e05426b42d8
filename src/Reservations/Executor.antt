-- ===== src/Reservations/Executor.antt =====
-- `execute_approved_action`: what an approved proposal does to the reservation book.
use restaurant_sahayak.Base.{
  ℕ, ◌≡◌, refl, ap, true, false, Option, none, some, find, find-id, find_self, update, arith, Text,
}
use restaurant_sahayak.Errors.{ok}
use restaurant_sahayak.Exec.{bind-state, bind-Leaves}
use restaurant_sahayak.Models.{Session}
use restaurant_sahayak.Models.Enums.{is_active_status}
use restaurant_sahayak.Models.Bookings.{Reservation, Changes, reservation_row}
use restaurant_sahayak.Models.Approvals.{
  Parameters, modify_reservation, cancel_reservation, approve_purchase_request, bare,
}
use restaurant_sahayak.Events.{EventBus, Publication}
use restaurant_sahayak.Events.Preserves.{HandlersKeep}
use restaurant_sahayak.Reservations.Repository.{violated, save}
use restaurant_sahayak.Reservations.Service.{
  ReservationService, execute_parameters, cancel_approved, modify_approved, moves, table_after,
  as_modified, as_cancelled, announce, apply_modification, check_move,
}
use restaurant_sahayak.Reservations.Bookings.{BookingsOk, MoveChecked, modified-free}
use restaurant_sahayak.Reservations.Steps.{
  Held, save-BookingsOk, save_cancelled-BookingsOk, check_move-Checked,
}
use restaurant_sahayak.Reservations.Preserves.{announced}

-- What the executor does not test: a modification that leaves the table, the time and the party
-- as they are finds its reservation active.
abbrev pub StillActive : Parameters → Session → Type 0
StillActive (modify_reservation id changes) s =
    (r : Reservation)
    → find id s.reservations ≡ some r
    → moves changes ≡ false
    → is_active_status r.status ≡ true
StillActive _ s = Unit

found-Held : (id : ℕ) (r : Reservation) (s : Session) → find id s.reservations ≡ some r → Held r s
found-Held id r s e = find_self id s.reservations r e

module _ (service : ReservationService)
    (handlers : (bus : EventBus) → service.event_bus ≡ some bus → HandlersKeep BookingsOk bus) where
  cancel_approved-BookingsOk :
      (run_id id : ℕ) (reason : Option Text) (found : Option Reservation) (s : Session)
      → find id s.reservations ≡ found
      → BookingsOk s
      → BookingsOk (cancel_approved service run_id id reason found s).1
  unfolding cancel_approved
  cancel_approved-BookingsOk run_id id reason none s e h = h
  cancel_approved-BookingsOk run_id id reason (some r) s e h =
      bind-state BookingsOk (save r.id (as_cancelled reason)) _ s
        (save_cancelled-BookingsOk r.id reason r s (found-Held id r s e) h)
        λ k. announced service handlers _ k

  modify_approved-BookingsOk :
      (run_id id : ℕ) (changes : Changes) (found : Option Reservation) (s : Session)
      → find id s.reservations ≡ found
      → StillActive (modify_reservation id changes) s
      → BookingsOk s
      → BookingsOk (modify_approved service run_id id changes found s).1
  unfolding modify_approved apply_modification
  modify_approved-BookingsOk run_id id changes none s e active h = h
  modify_approved-BookingsOk run_id id changes (some r) s e active h =
      bind-Leaves BookingsOk
        (λ _ s. Held r s × MoveChecked changes r (table_after changes r) s.reservations)
        (apply_modification r changes) _ s
        (check_move-Checked r changes (table_after changes r) s h (found-Held id r s e))
        λ _ s' h c.
          bind-state BookingsOk (save r.id (as_modified changes)) _ s'
            (save-BookingsOk r.id (as_modified changes) r s' (λ x. refl) c.0
              (modified-free changes r.id r s'.reservations refl (active r e) c.0 h.apart c.1) h)
            λ k. announced service handlers _ k

  -- The approved action keeps the reservations of each table apart, if a modification that moves
  -- nothing finds its reservation still active and the handlers leave them apart.
  pub execute_parameters-BookingsOk :
      (run_id : ℕ) (parameters : Parameters) (s : Session)
      → StillActive parameters s
      → BookingsOk s
      → BookingsOk (execute_parameters service run_id parameters s).1
  unfolding execute_parameters
  execute_parameters-BookingsOk run_id (cancel_reservation id reason) s active h =
      cancel_approved-BookingsOk run_id id reason (find id s.reservations) s refl h
  execute_parameters-BookingsOk run_id (modify_reservation id changes) s active h =
      modify_approved-BookingsOk run_id id changes (find id s.reservations) s refl active h
  execute_parameters-BookingsOk run_id (approve_purchase_request id) s active h = h
  execute_parameters-BookingsOk run_id (bare action) s active h = h

still_passes :
    (changes : Changes) (r : Reservation) (at : Option ℕ) (s : Session)
    → moves changes ≡ false
    → check_move r changes at s ≡ (ok tt, s)
still_passes changes r none s still = refl
still_passes changes r (some t) s still = rw still refl

pub saved :
    (id : ℕ) (f : Reservation → Reservation) (r : Reservation) (s : Session)
    → find id s.reservations ≡ some r
    → violated (f r) ≡ none
    → save id f s ≡ (ok id, record s { reservations = update id f s.reservations })
unfolding save
saved id f r s e fits = rw e (rw fits refl)

pub announce_unheard :
    (bus : Option EventBus) (p : Publication) (s : Session)
    → bus ≡ none
    → announce bus p s ≡ (ok tt, s)
unfolding announce
announce_unheard none p s e = refl
announce_unheard (some bus) p s e = ground arith

-- Where no event bus is wired, an approved modification that moves nothing is written whatever the
-- status of its reservation is by then, with no test for a conflict: a reservation that was
-- cancelled in between is active again.
pub modification_reactivates :
    (service : ReservationService) (run_id id : ℕ) (changes : Changes) (r : Reservation)
    (s : Session)
    → service.event_bus ≡ none
    → find id s.reservations ≡ some r
    → moves changes ≡ false
    → violated (as_modified changes r) ≡ none
    → (execute_parameters service run_id (modify_reservation id changes) s
        ≡ (ok id, record s { reservations = update id (as_modified changes) s.reservations }))
      × (is_active_status (as_modified changes r).status ≡ true)
unfolding execute_parameters modify_approved apply_modification
modification_reactivates service run_id id changes r s unheard e still fits = (
  rw e (
      rw (still_passes changes r (table_after changes r) s still) (
        rw (saved r.id (as_modified changes) r s (found-Held id r s e) fits) (
          rw (announce_unheard service.event_bus _ _ unheard) (
            ap
              (λ k.
                (ok k, record s { reservations = update k (as_modified changes) s.reservations }))
              (find-id id s.reservations r e))))),
  refl,
)
