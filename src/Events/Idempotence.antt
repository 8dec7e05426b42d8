-- ===== src/Events/Idempotence.antt =====
-- Publishing under an idempotency key.
use restaurant_sahayak.Base.{
  ◌+◌, ◌==◌, ◌&&◌, if◌then◌else◌, eq_iff, ℕ, ◌≡◌, refl, sym, String, Option, none, some, List, [],
  ◌∷◌, ◌++◌, arith, str_eq, true, false, Bool-cases, inl, inr, select, select-append, select-update,
  any-select, select-any,
}
use mathlib.Core.Path.{subst}
use restaurant_sahayak.Errors.{Result, ok, err, multiple_results_found}
use restaurant_sahayak.Exec.{Keeps, returned, after, throw, pure, ◌>>◌}
use restaurant_sahayak.Models.{Session}
use restaurant_sahayak.Models.Approvals.{Event, HandlerResult, event_types, is_in}
use restaurant_sahayak.Events.{
  EventEnvelope, Publication, EventBus, get_by_idempotency_key, create_event, mark_handled,
  publish_new, find_duplicate, deliver, publish, to_envelope, has_key, key_taken, with_outcome,
  new_event, dispatch_all,
}
use restaurant_sahayak.Events.Preserves.{HandlersKeep, publish-Keeps, dispatch_all-Keeps}

-- Exactly one event of the restaurant has the key, and it has this envelope.
abbrev pub KeyHeldBy : ℕ → String → EventEnvelope → Session → Type 0
KeyHeldBy restaurant_id key envelope s =
    (e : Event) × (select (has_key restaurant_id key) s.events ≡ e ∷ [])
    × (to_envelope e ≡ envelope)

module _ (restaurant_id : ℕ) (key : String) where
  -- The insertion of an event is refused if its key is held already.
  other_key :
      (rid : ℕ) (o : Option String) (es : List Event) (e : Event)
      → select (has_key restaurant_id key) es ≡ e ∷ []
      → key_taken rid o es ≡ false
      → (rid == restaurant_id && elim o [ none ↦ false | some k ↦ str_eq k key ]) ≡ false
  other_key rid none es e held free = ground arith
  other_key rid (some k) es e held free = elim (Bool-cases (rid == restaurant_id && str_eq k key)) [
    | inr other ↦ other
    | inl equal ↦
        let same_key : k ≡ key = ground (arith, eq_iff k key) in
        let same_rid : rid ≡ restaurant_id = ground arith in
        cc (select-any (has_key rid k) es free, same_key, same_rid, held)
  ]

  module _ (envelope : EventEnvelope) where
    create_event-KeyHeldBy :
        (p : Publication) → Keeps (KeyHeldBy restaurant_id key envelope) (create_event p)
    unfolding create_event
    create_event-KeyHeldBy p = record {
      at = λ s (e, held, same).
          elim (Bool-cases (key_taken p.restaurant_id p.idempotency_key s.events)) [
            | inl taken ↦ rw taken (e, held, same)
            | inr free ↦ rw free (
              e,
              rw (select-append (has_key restaurant_id key) s.events, held)
                  (rw (other_key p.restaurant_id p.idempotency_key s.events e held free) refl),
              same,
            )
          ];
    }

    mark_handled-KeyHeldBy :
        (id : ℕ) (results : List (String × HandlerResult))
        → Keeps (KeyHeldBy restaurant_id key envelope) (mark_handled id results)
    unfolding mark_handled
    mark_handled-KeyHeldBy id results = record {
      at = λ s (e, held, same). (
        if e.id == id then with_outcome s.now results e else e,
        rw
            (
              select-update (has_key restaurant_id key) id (with_outcome s.now results) s.events
                  (λ x. refl),
              held,
            )
            refl,
        ground arith,
      );
    }

    -- While the handlers leave the owner of a key alone, no further publication replaces it.
    publish-KeyHeldBy :
        (bus : EventBus)
        → HandlersKeep (KeyHeldBy restaurant_id key envelope) bus
        → (p : Publication) → Keeps (KeyHeldBy restaurant_id key envelope) (publish bus p)
    publish-KeyHeldBy bus handlers p =
        publish-Keeps (KeyHeldBy restaurant_id key envelope) bus handlers create_event-KeyHeldBy
          mark_handled-KeyHeldBy p

-- The insertion of the event that is asked for, where its key is free.
abbrev inserted : Publication → Session → Session
inserted p s = record s { events = s.events ++ new_event p s ∷ []; next_id = s.next_id + 2 }

-- What the look-up of the key gives, by the events that have it.
abbrev looked_up : List Event → Result (Option Event)
looked_up [] = ok none
looked_up (e ∷ []) = ok (some e)
looked_up (_ ∷ _ ∷ _) = err multiple_results_found

module _ (bus : EventBus) (p : Publication) (key : String)
    (keyed : p.idempotency_key ≡ some key) where
  find_duplicate_lem :
      (s : Session) (found : List Event)
      → select (has_key p.restaurant_id key) s.events ≡ found
      → find_duplicate p.restaurant_id p.idempotency_key s ≡ (looked_up found, s)
  unfolding find_duplicate get_by_idempotency_key
  find_duplicate_lem s [] f = rw (keyed, find_duplicate) (rw f)
  find_duplicate_lem s (e ∷ []) f = rw (keyed, find_duplicate) (rw f)
  find_duplicate_lem s (e ∷ e' ∷ es) f = rw (keyed, find_duplicate) (rw f)

  publish_held :
      (s : Session) (envelope : EventEnvelope)
      → is_in p.event_type event_types ≡ true
      → KeyHeldBy p.restaurant_id key envelope s
      → publish bus p s ≡ (ok envelope, s)
  unfolding publish deliver
  publish_held s envelope known (e, held, same) =
      rw (known, find_duplicate_lem s (e ∷ []) held) (cc same)

-- The session after some more publications, whatever they came to
abbrev pub publish_all : EventBus → List Publication → Session → Session
publish_all bus [] s = s
publish_all bus (p ∷ ps) s = publish_all bus ps (publish bus p s).1

module _ (bus : EventBus) (p : Publication) (key : String) (keyed : p.idempotency_key ≡ some key)
    (handlers : (env : EventEnvelope) → HandlersKeep (KeyHeldBy p.restaurant_id key env) bus) where
  marked-KeyHeldBy :
      (event : Event) (out : Result (List (String × HandlerResult)) × Session) (s' : Session)
      (envelope : EventEnvelope)
      → KeyHeldBy p.restaurant_id key (to_envelope event) out.1
      → after (λ results. mark_handled event.id results >> pure (to_envelope event)) throw out
        ≡ (ok envelope, s')
      → KeyHeldBy p.restaurant_id key envelope s'
  unfolding mark_handled
  marked-KeyHeldBy event (ok results, t) s' envelope held h =
      returned (KeyHeldBy p.restaurant_id key) h (
        (mark_handled-KeyHeldBy p.restaurant_id key (to_envelope event) event.id results).at t held)
  marked-KeyHeldBy event (err x, t) s' envelope held h = cc

  created :
      (s : Session)
      → select (has_key p.restaurant_id key) s.events ≡ []
      → create_event p s ≡ (ok (new_event p s), inserted p s)
  unfolding create_event
  created s new = ground (arith, keyed, any-select (has_key p.restaurant_id key) s.events new)

  inserted-KeyHeldBy :
      (s : Session)
      → select (has_key p.restaurant_id key) s.events ≡ []
      → KeyHeldBy p.restaurant_id key (to_envelope (new_event p s)) (inserted p s)
  inserted-KeyHeldBy s new = (
    new_event p s,
    rw (select-append (has_key p.restaurant_id key) s.events, new)
        (ground (arith, keyed, eq_iff key key)),
    refl,
  )

  publish_new-KeyHeldBy :
      (s s' : Session) (envelope : EventEnvelope)
      → select (has_key p.restaurant_id key) s.events ≡ []
      → publish_new bus p s ≡ (ok envelope, s')
      → KeyHeldBy p.restaurant_id key envelope s'
  unfolding publish_new
  publish_new-KeyHeldBy s s' envelope new h =
      let event = new_event p s in
      marked-KeyHeldBy event
        (dispatch_all bus (to_envelope event) (bus.handlers p.event_type) [] (inserted p s)) s'
        envelope
        ((dispatch_all-Keeps (KeyHeldBy p.restaurant_id key (to_envelope event)) bus
            (handlers (to_envelope event)) (to_envelope event) (bus.handlers p.event_type) []
            (handlers (to_envelope event) p.event_type)).at
          (inserted p s) (inserted-KeyHeldBy s new))
        (rw (created s new) at h)

  publish_returns :
      (s s' : Session) (envelope : EventEnvelope)
      → is_in p.event_type event_types ≡ true
      → (found : List Event) → select (has_key p.restaurant_id key) s.events ≡ found
      → publish bus p s ≡ (ok envelope, s')
      → KeyHeldBy p.restaurant_id key envelope s'
  unfolding publish deliver
  publish_returns s s' envelope known [] f h =
      publish_new-KeyHeldBy s s' envelope f
        (rw (known, find_duplicate_lem bus p key keyed s [] f) at h)
  publish_returns s s' envelope known (e ∷ []) f h =
      returned (KeyHeldBy p.restaurant_id key)
        (rw (known, find_duplicate_lem bus p key keyed s (e ∷ []) f) at h) (e, f, refl)
  publish_returns s s' envelope known (e ∷ e' ∷ es) f h =
      cc (find_duplicate_lem bus p key keyed s (e ∷ e' ∷ es) f)

  publish_succeeds :
      (s s' : Session) (envelope : EventEnvelope)
      → publish bus p s ≡ (ok envelope, s')
      → KeyHeldBy p.restaurant_id key envelope s'
  publish_succeeds s s' envelope h = elim (Bool-cases (is_in p.event_type event_types)) [
    | inl known ↦ publish_returns s s' envelope known _ refl h
    | inr unknown ↦ absurd (unfold publish in cc (rw unknown at h))
  ]

  publish_all-KeyHeldBy :
      (ps : List Publication) (envelope : EventEnvelope) (s : Session)
      → KeyHeldBy p.restaurant_id key envelope s
      → KeyHeldBy p.restaurant_id key envelope (publish_all bus ps s)
  publish_all-KeyHeldBy [] envelope s held = held
  publish_all-KeyHeldBy (q ∷ qs) envelope s held =
      publish_all-KeyHeldBy qs envelope (publish bus q s).1
        ((publish-KeyHeldBy p.restaurant_id key envelope bus (handlers envelope) q).at s held)

  -- Once a publication under a key has returned, each later publication of an allowed type under
  -- that key of the restaurant, of whatever type, entity and payload, returns the envelope of the
  -- first and changes nothing, whatever was published in between, if the handlers leave the owner of
  -- the key alone.
  pub publish-publish :
      (s s' : Session) (envelope : EventEnvelope)
      → publish bus p s ≡ (ok envelope, s')
      → (between : List Publication) (q : Publication) → q.restaurant_id ≡ p.restaurant_id
      → q.idempotency_key ≡ some key
      → is_in q.event_type event_types ≡ true
      → publish bus q (publish_all bus between s') ≡ (ok envelope, publish_all bus between s')
  publish-publish s s' envelope h between q of_it keyed_too known =
      publish_held bus q key keyed_too (publish_all bus between s') envelope known (
        subst (λ rid. KeyHeldBy rid key envelope (publish_all bus between s')) (sym of_it)
          (publish_all-KeyHeldBy between envelope s' (publish_succeeds s s' envelope h)))
