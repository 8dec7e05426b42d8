-- ===== src/Events.antt =====
-- The in-process event bus (app/services/event_bus.py) and its repository
-- (app/repositories/event_repo.py). A handler is a parameter: any action of the session, which
-- in the program runs an agent. The spans and log lines of telemetry are left out.
pub mod Attempts
pub mod Preserves
pub mod Idempotence
use restaurant_sahayak.Base.{
  ℕ, zero, suc, ◌+◌, String, Bool, true, false, ◌&&◌, ◌==◌, str_eq, is_some, or_else, Option, none,
  some, List, [], ◌∷◌, ◌++◌, any, select, head?, update, if◌then◌else◌,
}
use restaurant_sahayak.Errors.{
  Result, ok, err, Exn, tool_error, invalid_event_type, integrity_error, assertion_error,
}
use restaurant_sahayak.Exec.{
  pure, throw, gets, modify, raise_if, scalar_one_or_none, after, ◌>>=◌, ◌>>◌,
}
use restaurant_sahayak.Models.{Session, Action, utcnow, fresh}
use restaurant_sahayak.Models.Approvals.{
  Payload, Event, HandlerResult, success, failed_after_retries, event_types, is_in, event_row,
}

-- `EventEnvelope` of app/schemas/event.py
pub record EventEnvelope : Type 0 where
  pub event_id : ℕ
  pub event_type : String
  pub restaurant_id : ℕ
  pub entity_id : Option ℕ
  pub payload : Payload
  pub correlation_id : ℕ
  pub published_by : String
  pub created_at : ℕ

-- The arguments of `publish`
pub record Publication : Type 0 where
  pub event_type : String
  pub restaurant_id : ℕ
  pub entity_id : Option ℕ
  pub payload : Payload
  pub published_by : String
  pub correlation_id : Option ℕ
  pub idempotency_key : Option String

-- `_HandlerRegistration`
pub record Registration : Type 0 where
  pub name : String
  pub handler : EventEnvelope → Action (Unit {0})

-- `InProcessEventBus`; `handlers` is the `defaultdict` of the subscriptions.
pub record EventBus : Type 0 where
  pub max_retries_per_handler : ℕ
  pub handlers : String → List Registration

-- `subscribe`; `function_name` is the handler's `__name__`.
unfoldable pub subscribe :
    EventBus
    → String
    → (EventEnvelope → Action (Unit {0}))
    → String
    → Option String
    → Result EventBus
subscribe bus event_type handler function_name name =
    let registration : Registration = record {
      name = or_else name function_name;
      handler = handler;
    } in
    if is_in event_type event_types
    then ok (record bus {
      handlers =
          λ t. if str_eq t event_type then bus.handlers t ++ registration ∷ [] else bus.handlers t;
    })
    else err (tool_error (invalid_event_type event_type))

abbrev pub to_envelope : Event → EventEnvelope
to_envelope e = record {
  event_id = e.id;
  event_type = e.event_type;
  restaurant_id = e.restaurant_id;
  entity_id = e.entity_id;
  payload = e.payload;
  correlation_id = e.correlation_id;
  published_by = e.published_by;
  created_at = e.created_at;
}

abbrev pub has_key : ℕ → String → Event → Bool
has_key restaurant_id key e =
    e.restaurant_id == restaurant_id
    && elim e.idempotency_key [ none ↦ false | some k ↦ str_eq k key ]

-- `EventRepository.get_by_idempotency_key`
unfoldable pub get_by_idempotency_key : ℕ → String → Action (Option Event)
get_by_idempotency_key restaurant_id key s =
    scalar_one_or_none (select (has_key restaurant_id key) s.events) s

-- The unique index `uq_events_idempotency_key`
abbrev pub key_taken : ℕ → Option String → List Event → Bool
key_taken restaurant_id none es = false
key_taken restaurant_id (some key) es = any (has_key restaurant_id key) es

-- The row that `publish` asks for; `correlation_id or uuid.uuid4()` is a second fresh identity.
abbrev pub new_event : Publication → Session → Event
new_event p s = record {
  id = s.next_id;
  event_type = p.event_type;
  restaurant_id = p.restaurant_id;
  entity_id = p.entity_id;
  payload = p.payload;
  correlation_id = or_else p.correlation_id (s.next_id + 1);
  published_by = p.published_by;
  idempotency_key = p.idempotency_key;
  created_at = s.now;
  handled = false;
  handled_at = none;
  handler_results = none;
}

-- `EventRepository.create`
unfoldable pub create_event : Publication → Action Event
create_event p s =
    if key_taken p.restaurant_id p.idempotency_key s.events
    then throw (integrity_error "uq_events_idempotency_key") s
    else pure (new_event p s)
        (record s { events = s.events ++ new_event p s ∷ []; next_id = s.next_id + 2 })

-- The `while` loop of `_dispatch_one`, on the attempts that are left and the last error.
unfoldable pub attempt_loop : ℕ → Option Exn → Registration → EventEnvelope → Action HandlerResult
attempt_loop zero none registration envelope s = throw assertion_error s
attempt_loop zero (some last_error) registration envelope s =
    pure (failed_after_retries last_error) s
attempt_loop (suc left) last registration envelope s =
    after (λ _ s'. pure success s') (λ e s'. attempt_loop left (some e) registration envelope s')
      (registration.handler envelope s)

-- `_dispatch_one`
unfoldable pub dispatch_one : EventBus → Registration → EventEnvelope → Action HandlerResult
dispatch_one bus = attempt_loop (suc bus.max_retries_per_handler) none

-- `handler_results[name] = result`
abbrev pub set_result :
    String → HandlerResult → List (String × HandlerResult) → List (String × HandlerResult)
set_result name r [] = (name, r) ∷ []
set_result name r ((n, q) ∷ rest) =
    if str_eq n name then (name, r) ∷ rest else (n, q) ∷ set_result name r rest

-- The `for` loop of `publish`
unfoldable pub dispatch_all :
    EventBus
    → EventEnvelope
    → List Registration
    → List (String × HandlerResult)
    → Action (List (String × HandlerResult))
dispatch_all bus envelope [] results = pure results
dispatch_all bus envelope (registration ∷ rest) results = do
  r ← dispatch_one bus registration envelope
  dispatch_all bus envelope rest (set_result registration.name r results)

-- `handler_results or None`
abbrev pub or_none : List (String × HandlerResult) → Option (List (String × HandlerResult))
or_none [] = none
or_none (r ∷ rs) = some (r ∷ rs)

-- The three assignments to the event after its dispatch
abbrev pub with_outcome : ℕ → List (String × HandlerResult) → Event → Event
with_outcome now results e = record e {
  handled = true;
  handled_at = some now;
  handler_results = or_none results;
}

-- They are made on the row, which a handler may have seen, and saved.
unfoldable pub mark_handled : ℕ → List (String × HandlerResult) → Action (Unit {0})
mark_handled id results s =
    pure tt (record s { events = update id (with_outcome s.now results) s.events })

-- Where no event has the key: persist, dispatch to every handler, record the outcome.
unfoldable pub publish_new : EventBus → Publication → Action EventEnvelope
publish_new bus p = do
  event ← create_event p
  results ← dispatch_all bus (to_envelope event) (bus.handlers p.event_type) []
  mark_handled event.id results
  pure (to_envelope event)

-- `existing`: the event that the idempotency key, if one is given, already has
unfoldable pub find_duplicate : ℕ → Option String → Action (Option Event)
find_duplicate restaurant_id none = pure none
find_duplicate restaurant_id (some key) = get_by_idempotency_key restaurant_id key

-- What `publish` does once it knows whether the key has an event.
unfoldable pub deliver : EventBus → Publication → Option Event → Action EventEnvelope
deliver bus p none = publish_new bus p
deliver bus p (some existing) = pure (to_envelope existing)

-- `publish`
unfoldable pub publish : EventBus → Publication → Action EventEnvelope
publish bus p =
    if is_in p.event_type event_types
    then find_duplicate p.restaurant_id p.idempotency_key >>= deliver bus p
    else throw (tool_error (invalid_event_type p.event_type))

-- `_publish` of a service: nothing without a bus (app/services/reservation_service.py)
unfoldable pub announce : Option EventBus → Publication → Action (Unit {0})
announce none p = pure tt
announce (some bus) p = publish bus p >> pure tt
