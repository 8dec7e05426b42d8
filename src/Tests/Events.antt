-- ===== src/Tests/Events.antt =====
-- The event bus of the test restaurant.
use restaurant_sahayak.Base.{◌≡◌, refl, none, some, [], ◌∷◌}
use restaurant_sahayak.Errors.{ok, other}
use restaurant_sahayak.Exec.{Keeps-pure, throw}
use restaurant_sahayak.Models.{Session}
use restaurant_sahayak.Models.Approvals.{reservation_cancelled, is_in}
use restaurant_sahayak.Events.{
  EventEnvelope, Publication, Registration, publish, deliver, find_duplicate,
  get_by_idempotency_key, publish_new, create_event, dispatch_all, dispatch_one, attempt_loop,
  mark_handled,
}
use restaurant_sahayak.Events.Attempts.{Ends, dispatch_one-Ends}
use restaurant_sahayak.Events.Idempotence.{publish_all, publish-publish}
use restaurant_sahayak.Tests.{restaurant, bus}

abbrev publication : Publication
publication = record {
  event_type = "reservation.cancelled";
  restaurant_id = 1;
  entity_id = some 31;
  payload = reservation_cancelled 31 none;
  published_by = "reservation_service";
  correlation_id = none;
  idempotency_key = some "cancel-31";
}

abbrev envelope : EventEnvelope
envelope = record {
  event_id = 100;
  event_type = "reservation.cancelled";
  restaurant_id = 1;
  entity_id = some 31;
  payload = reservation_cancelled 31 none;
  correlation_id = 101;
  published_by = "reservation_service";
  created_at = 1000;
}

abbrev published : Session
published = (publish bus publication restaurant).1

first_publish : publish bus publication restaurant ≡ (ok envelope, published)
unfolding publish deliver find_duplicate get_by_idempotency_key publish_new create_event
    dispatch_all dispatch_one attempt_loop mark_handled is_in
first_publish = refl

-- Another event under the key of the first
abbrev rival : Publication
rival = record {
  event_type = "reservation.created";
  restaurant_id = 1;
  entity_id = none;
  payload = reservation_cancelled 32 none;
  published_by = "reservation_service";
  correlation_id = some 7;
  idempotency_key = some "cancel-31";
}

-- An event without a key
abbrev keyless : Publication
keyless = record {
  event_type = "reservation.cancelled";
  restaurant_id = 1;
  entity_id = some 32;
  payload = reservation_cancelled 32 none;
  published_by = "reservation_service";
  correlation_id = none;
  idempotency_key = none;
}

publish-publish_example :
    publish bus rival (publish_all bus (keyless ∷ []) published)
    ≡ (ok envelope, publish_all bus (keyless ∷ []) published)
unfolding is_in
publish-publish_example =
    publish-publish bus publication "cancel-31" refl (λ env t. (λ e. Keeps-pure _ tt, tt))
      restaurant published envelope first_publish (keyless ∷ []) rival refl refl refl

abbrev registration : Registration
registration = record { name = "failing"; handler = λ _. throw (other "ConnectionError") }

dispatch_one-Ends_example :
    Ends registration envelope 2 restaurant (dispatch_one bus registration envelope restaurant)
dispatch_one-Ends_example = dispatch_one-Ends bus registration envelope restaurant
