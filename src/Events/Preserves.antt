-- ===== src/Events/Preserves.antt =====
-- Invariants of the session across `publish`: what the handlers and the writes of the bus keep,
-- publishing keeps.
use restaurant_sahayak.Base.{
  ◌≡◌, refl, ℕ, zero, suc, ◌≤◌, ◌+◌, String, Option, none, some, List, [], ◌∷◌, All, arith,
  Bool-cases, inl, inr,
}
use restaurant_sahayak.Errors.{Result, ok, err, Exn}
use restaurant_sahayak.Exec.{after, pure, ◌>>=◌, Keeps, Keeps-pure, Keeps-bind}
use restaurant_sahayak.Models.{Session}
use restaurant_sahayak.Models.Approvals.{Event, HandlerResult, event_types, is_in}
use restaurant_sahayak.Events.{
  EventEnvelope, Publication, Registration, EventBus, get_by_idempotency_key, create_event,
  attempt_loop, dispatch_one, dispatch_all, set_result, mark_handled, publish_new, find_duplicate,
  announce, deliver, publish, to_envelope, key_taken,
}

-- Every handler that is subscribed keeps `P`.
abbrev pub HandlersKeep : (Session → Type 0) → EventBus → Type 0
HandlersKeep P bus =
    (t : String)
    → All (λ r. (envelope : EventEnvelope) → Keeps P (r.handler envelope)) (bus.handlers t)

-- `P` says nothing of the events, and fresh identities do not disturb it.
abbrev pub IgnoresEvents : (Session → Type 0) → Type 0
IgnoresEvents P =
    (s : Session) (es : List Event) (n : ℕ)
    → s.next_id ≤ n
    → P s
    → P (record s { events = es; next_id = n })

module _ (P : Session → Type 0) where
  attempt_loop-Keeps :
      (r : Registration) (envelope : EventEnvelope)
      → Keeps P (r.handler envelope)
      → (left : ℕ) (last : Option Exn) → Keeps P (attempt_loop left last r envelope)
  unfolding attempt_loop
  attempt_loop-Keeps r envelope k zero none = record { at = λ s h. h }
  attempt_loop-Keeps r envelope k zero (some e) = record { at = λ s h. h }
  attempt_loop-Keeps r envelope k (suc left) last = record {
    at = λ s h. called (attempt_loop-Keeps r envelope k left) s (r.handler envelope s) (k.at s h);
  }
    where
      called :
          ((e : Option Exn) → Keeps P (attempt_loop left e r envelope))
          → (s : Session) (out : Result (Unit {0}) × Session) → P out.1
          → P
              (after
                (λ _ s'. (ok HandlerResult.success, s'))
                (λ e s'. attempt_loop left (some e) r envelope s')
                out).1
      called ih s (ok u, s') h = h
      called ih s (err e, s') h = (ih (some e)).at s' h

module _ (P : Session → Type 0) (bus : EventBus) (handlers : HandlersKeep P bus) where
  pub dispatch_all-Keeps :
      (envelope : EventEnvelope) (rs : List Registration) (results : List (String × HandlerResult))
      → All (λ r. (envelope : EventEnvelope) → Keeps P (r.handler envelope)) rs
      → Keeps P (dispatch_all bus envelope rs results)
  unfolding dispatch_all dispatch_one
  dispatch_all-Keeps envelope [] results h = Keeps-pure P results
  dispatch_all-Keeps envelope (r ∷ rs) results h =
      Keeps-bind P (dispatch_one bus r envelope) _
        (attempt_loop-Keeps P r envelope (h.0 envelope) (suc bus.max_retries_per_handler) none)
        (λ a. dispatch_all-Keeps envelope rs (set_result r.name a results) h.1)

  find_duplicate-Keeps :
      (restaurant_id : ℕ) (key : Option String) → Keeps P (find_duplicate restaurant_id key)
  unfolding find_duplicate get_by_idempotency_key
  find_duplicate-Keeps restaurant_id none = record { at = λ s h. h }
  find_duplicate-Keeps restaurant_id (some key) = record { at = λ s h. ground arith }

  module _ (created : (p : Publication) → Keeps P (create_event p))
      (marked : (id : ℕ) (results : List (String × HandlerResult))
        → Keeps P (mark_handled id results)) where
    publish_new-Keeps : (p : Publication) → Keeps P (publish_new bus p)
    unfolding publish_new
    publish_new-Keeps p = Keeps-bind P (create_event p) _ (created p) λ event.
        Keeps-bind P (dispatch_all bus (to_envelope event) (bus.handlers p.event_type) []) _
          (dispatch_all-Keeps (to_envelope event) (bus.handlers p.event_type) []
            (handlers p.event_type))
          λ results.
            Keeps-bind P (mark_handled event.id results) _ (marked event.id results)
              λ _. Keeps-pure P (to_envelope event)

    deliver-Keeps : (p : Publication) (existing : Option Event) → Keeps P (deliver bus p existing)
    unfolding deliver
    deliver-Keeps p none = publish_new-Keeps p
    deliver-Keeps p (some event) = Keeps-pure P (to_envelope event)

    -- Publishing keeps what the writes of the bus and every handler keep.
    pub publish-Keeps : (p : Publication) → Keeps P (publish bus p)
    unfolding publish
    publish-Keeps p = elim (Bool-cases (is_in p.event_type event_types)) [
      | inl known ↦ rw known (
          Keeps-bind P (find_duplicate p.restaurant_id p.idempotency_key) _
            (find_duplicate-Keeps p.restaurant_id p.idempotency_key) (deliver-Keeps p))
      | inr unknown ↦ rw unknown (record { at = λ s h. h })
    ]

module _ (P : Session → Type 0) (ignores : IgnoresEvents P) where
  create_event-Keeps : (p : Publication) → Keeps P (create_event p)
  unfolding create_event
  create_event-Keeps p = record {
    at = λ s h. elim (Bool-cases (key_taken p.restaurant_id p.idempotency_key s.events)) [
      | inl taken ↦ rw taken h
      | inr free ↦ rw free (ignores s _ (s.next_id + 2) (omega arith) h)
    ];
  }

  mark_handled-Keeps :
      (id : ℕ) (results : List (String × HandlerResult)) → Keeps P (mark_handled id results)
  unfolding mark_handled
  mark_handled-Keeps id results = record { at = λ s h. ignores s _ s.next_id (omega arith) h }

-- Publishing keeps what says nothing of the events, if every handler keeps it.
pub publish-Keeps_ignoring :
    (P : Session → Type 0) (bus : EventBus)
    → IgnoresEvents P
    → HandlersKeep P bus
    → (p : Publication) → Keeps P (publish bus p)
publish-Keeps_ignoring P bus ignores handlers p =
    publish-Keeps P bus handlers (create_event-Keeps P ignores) (mark_handled-Keeps P ignores) p

module _ (P : Session → Type 0) (bus : Option EventBus) (ignores : IgnoresEvents P)
    (handlers : (b : EventBus) → bus ≡ some b → HandlersKeep P b) where
  pub announce-Keeps : (p : Publication) → Keeps P (announce bus p)
  unfolding announce
  announce-Keeps p = by_bus bus refl
    where
      by_bus : (o : Option EventBus) → bus ≡ o → Keeps P (announce o p)
      by_bus none e = Keeps-pure P tt
      by_bus (some b) e =
          Keeps-bind P (publish b p) _ (publish-Keeps_ignoring P b ignores (handlers b e) p)
            λ _. Keeps-pure P tt

  pub announced-Keeps :
      {A : Type 0} (p : Publication) (a : A) → Keeps P (announce bus p >>= λ _. pure a)
  announced-Keeps p a = Keeps-bind P (announce bus p) _ (announce-Keeps p) λ _. Keeps-pure P a
