-- ===== src/Reservations/Service/Common.antt =====
-- What the methods of `ReservationService` share: its collaborators, `_publish`, `_duration` and
-- `_is_high_impact_party`.
unfoldable pub use restaurant_sahayak.Events.{announce}
use restaurant_sahayak.Base.{ℕ, String, Bool, ◌==◌, leb, Option, none, some, if◌then◌else◌}
use restaurant_sahayak.Models.Bookings.{customer_row, table_row, reservation_row}
use restaurant_sahayak.Models.Approvals.{Payload}
use restaurant_sahayak.Settings.{Settings}
use restaurant_sahayak.Events.{EventBus, Publication}
use restaurant_sahayak.Approvals.{ApprovalService}

pub record ReservationService : Type 0 where
  pub approval_service : ApprovalService
  pub settings : Settings
  pub event_bus : Option EventBus

abbrev pub booking_event : String → ℕ → ℕ → Payload → Option ℕ → Publication
booking_event event_type restaurant_id entity_id payload correlation_id = record {
  event_type = event_type;
  restaurant_id = restaurant_id;
  entity_id = some entity_id;
  payload = payload;
  published_by = "reservation_service";
  correlation_id = correlation_id;
  idempotency_key = none;
}

-- `_duration`: a requested zero counts as no request.
abbrev pub duration_of : Settings → Option ℕ → ℕ
duration_of settings none = settings.default_reservation_duration_minutes
duration_of settings (some d) = if d == 0 then settings.default_reservation_duration_minutes else d

-- `_is_high_impact_party`
abbrev pub is_high_impact_party : Settings → ℕ → Bool
is_high_impact_party settings party_size =
    leb settings.reservation_high_impact_party_size party_size
