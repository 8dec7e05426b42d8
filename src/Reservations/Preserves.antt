-- ===== src/Reservations/Preserves.antt =====
-- The operations of `ReservationService` keep the reservations of each table apart.
use restaurant_sahayak.Base.{
  ℕ, ◌≡◌, refl, true, ◌||◌, or_else, Option, some, Bool-cases, inl, inr, Text, String,
}
use restaurant_sahayak.Exec.{
  Keeps, Keeps-bind_after, bind-state, bind-Leaves, keeps_rules, pure, ◌>>=◌,
}
use restaurant_sahayak.Models.{Session}
use restaurant_sahayak.Models.Enums.{is_active_status}
use restaurant_sahayak.Models.Bookings.{
  Reservation, Changes, table_row, reservation_row, customer_row,
}
use restaurant_sahayak.Models.Approvals.{Parameters, Reason, reservation_created}
use restaurant_sahayak.Settings.{ToolContext, done}
use restaurant_sahayak.Events.{EventBus, Publication}
use restaurant_sahayak.Events.Preserves.{HandlersKeep, announced-Keeps}
use restaurant_sahayak.Approvals.Preserves.{create-Keeps}
use restaurant_sahayak.Reservations.Repository.{insert, save}
use restaurant_sahayak.Reservations.Service.{
  ReservationService, Booking, announce, booking_event, choose_table, new_reservation,
  create_reservation, get_own, table_after, apply_modification, as_modified, as_cancelled, propose,
  modify_now, modify_reservation, cancel_now, cancel_reservation, book, modify_gated, cancel_gated,
  is_high_impact_party,
}
use restaurant_sahayak.Reservations.Bookings.{BookingsOk, modified-free, MoveChecked}
use restaurant_sahayak.Reservations.Steps.{
  BookingsOk-local, insert_approval-BookingsOk, Chosen, choose_table-Chosen, insert-BookingsOk,
  save-BookingsOk, save_cancelled-BookingsOk, Held, get_own-Held, check_move-Checked,
}

module _ (service : ReservationService)
    (handlers : (bus : EventBus) → service.event_bus ≡ some bus → HandlersKeep BookingsOk bus) where
  pub announced :
      {A : Type 0} (p : Publication) (a : A)
      → Keeps BookingsOk (announce service.event_bus p >>= λ _. pure a)
  announced p a = announced-Keeps BookingsOk service.event_bus BookingsOk-local.events handlers p a

  booked-BookingsOk :
      (b : Booking) (context : ToolContext) (duration table_id : ℕ) (s : Session)
      → BookingsOk s
      → Chosen b duration table_id s
      → BookingsOk
          ((insert (new_reservation b context duration table_id) >>= λ id.
              announce service.event_bus (
                booking_event "reservation.created" b.restaurant_id id
                  (reservation_created id b.customer_id table_id b.party_size b.requested_time)
                  context.agent_run_id)
              >>= λ _. pure id)
            s).1
  booked-BookingsOk b context duration table_id s h free =
      bind-state BookingsOk (insert (new_reservation b context duration table_id)) _ s
        (insert-BookingsOk b context duration table_id s h free) λ id. announced _ id

  book-BookingsOk :
      (b : Booking) (context : ToolContext) (duration : ℕ)
      → Keeps BookingsOk (book service b context duration)
  unfolding book
  book-BookingsOk b context duration =
      Keeps-bind_after BookingsOk (Chosen b duration) (choose_table b duration b.table_id) _
        (choose_table-Chosen b duration b.table_id)
        λ table_id s h free. booked-BookingsOk b context duration table_id s h free

  -- A booking keeps the reservations of each table apart, whether it returns or raises.
  pub create-BookingsOk :
      (b : Booking) (context : ToolContext)
      → Keeps BookingsOk (create_reservation service b context)
  unfolding create_reservation
  create-BookingsOk b context = search (keeps_rules, book-BookingsOk) depth 15

  module _
      (gate_handlers : (bus : EventBus)
        → service.approval_service.event_bus ≡ some bus
        → HandlersKeep BookingsOk bus) where
    propose-BookingsOk :
        (context : ToolContext) (restaurant_id : ℕ) (action : String) (parameters : Parameters)
        (reason : Reason)
        → Keeps BookingsOk (propose service context restaurant_id action parameters reason)
    unfolding propose
    propose-BookingsOk context restaurant_id action parameters reason = search (
      keeps_rules,
      create-Keeps service.approval_service BookingsOk BookingsOk-local gate_handlers
          insert_approval-BookingsOk,
    )

    modify_now-BookingsOk :
        (context : ToolContext) (restaurant_id : ℕ) (r : Reservation) (changes : Changes)
        (s : Session)
        → is_active_status r.status ≡ true
        → BookingsOk s
        → Held r s
        → BookingsOk (modify_now service context restaurant_id r changes s).1
    unfolding modify_now apply_modification
    modify_now-BookingsOk context restaurant_id r changes s active h held =
        bind-Leaves BookingsOk
          (λ _ s. Held r s × MoveChecked changes r (table_after changes r) s.reservations)
          (apply_modification r changes) _ s
          (check_move-Checked r changes (table_after changes r) s h held)
          λ _ s h c.
            bind-state BookingsOk (save r.id (as_modified changes)) _ s
              (save-BookingsOk r.id (as_modified changes) r s (λ x. refl) c.0
                (modified-free changes r.id r s.reservations refl (λ _. active) c.0 h.apart c.1) h)
              λ id. announced _ (done id)

    cancel_now-BookingsOk :
        (context : ToolContext) (restaurant_id : ℕ) (r : Reservation) (reason : Option Text)
        (s : Session)
        → BookingsOk s
        → Held r s
        → BookingsOk (cancel_now service context restaurant_id r reason s).1
    unfolding cancel_now
    cancel_now-BookingsOk context restaurant_id r reason s h held =
        bind-state BookingsOk (save r.id (as_cancelled reason)) _ s
          (save_cancelled-BookingsOk r.id reason r s held h) λ id. announced _ (done id)

    modify_gated-BookingsOk :
        (context : ToolContext) (restaurant_id : ℕ) (r : Reservation) (changes : Changes)
        (s : Session)
        → is_active_status r.status ≡ true
        → BookingsOk s
        → Held r s
        → BookingsOk (modify_gated service context restaurant_id r changes s).1
    unfolding modify_gated
    modify_gated-BookingsOk context restaurant_id r changes s active h held =
        let party_size = or_else changes.party_size r.party_size in
        elim (Bool-cases (
          is_high_impact_party service.settings party_size
          || is_high_impact_party service.settings r.party_size)) [
            | inl high ↦ rw high ((propose-BookingsOk context restaurant_id _ _ _).at s h)
            | inr low ↦
                rw low (modify_now-BookingsOk context restaurant_id r changes s active h held)
          ]

    cancel_gated-BookingsOk :
        (context : ToolContext) (restaurant_id : ℕ) (r : Reservation) (reason : Option Text)
        (s : Session)
        → BookingsOk s
        → Held r s
        → BookingsOk (cancel_gated service context restaurant_id r reason s).1
    unfolding cancel_gated
    cancel_gated-BookingsOk context restaurant_id r reason s h held =
        elim (Bool-cases (is_high_impact_party service.settings r.party_size)) [
          | inl high ↦ rw high ((propose-BookingsOk context restaurant_id _ _ _).at s h)
          | inr low ↦ rw low (cancel_now-BookingsOk context restaurant_id r reason s h held)
        ]

    -- A modification keeps them apart, gated or not.
    pub modify-BookingsOk :
        (context : ToolContext) (restaurant_id id : ℕ) (changes : Changes)
        → Keeps BookingsOk (modify_reservation service context restaurant_id id changes)
    unfolding modify_reservation
    modify-BookingsOk context restaurant_id id changes =
        Keeps-bind_after BookingsOk Held (get_own restaurant_id id) _
          (get_own-Held restaurant_id id)
          λ r s h held. elim (Bool-cases (is_active_status r.status)) [
            | inl active ↦
                rw active (modify_gated-BookingsOk context restaurant_id r changes s active h held)
            | inr closed ↦ rw closed h
          ]

    -- A cancellation keeps them apart, gated or not.
    pub cancel-BookingsOk :
        (context : ToolContext) (restaurant_id id : ℕ) (reason : Option Text)
        → Keeps BookingsOk (cancel_reservation service context restaurant_id id reason)
    unfolding cancel_reservation
    cancel-BookingsOk context restaurant_id id reason =
        Keeps-bind_after BookingsOk Held (get_own restaurant_id id) _
          (get_own-Held restaurant_id id)
          λ r s h held. elim (Bool-cases (is_active_status r.status)) [
            | inl active ↦
                rw active (cancel_gated-BookingsOk context restaurant_id r reason s h held)
            | inr closed ↦ rw closed h
          ]
