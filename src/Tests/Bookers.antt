-- ===== src/Tests/Bookers.antt =====
-- The reservation agent of the test restaurant: the model books the evening for two again and again.
use mathlib.Core.Option
use restaurant_sahayak.Base.{
  Bool-cases, inl, inr, if◌then◌else◌, str_eq, eq_iff, refl, String, Option, none, some, [], ◌∷◌,
  arith,
}
use restaurant_sahayak.Errors.{ok}
use restaurant_sahayak.Models.Enums.{TriggerType}
use restaurant_sahayak.Settings.{default_settings}
use restaurant_sahayak.ToolCalling
use restaurant_sahayak.ToolCalling.{Agent}
use restaurant_sahayak.Reservations.Service.{ReservationService}
use restaurant_sahayak.Reservations.Bookings.{BookingsOk}
use restaurant_sahayak.Reservations.Histories.{NoDoubleBooking}
use restaurant_sahayak.Tools.Reservations.{ReservationJson, reservation_tools}
use restaurant_sahayak.Agents.{LlmProvider, reservation_agent}
use restaurant_sahayak.Agents.Orchestrated.{orchestrated-NoDoubleBooking}
use restaurant_sahayak.Orchestrator.State.{SpecialistName}
use restaurant_sahayak.Orchestrator.Nodes.{Orchestrator}
use restaurant_sahayak.Orchestrator.Service.{Process, Request, handle}
use restaurant_sahayak.Tests.{restaurant, evening, bus, bus_keeps, gate}

abbrev json : ReservationJson
json = record {
  read_get =
      λ _. ok (record { date_from = none; date_to = none; status = none; customer_id = none });
  read_find =
      λ _. ok (record { party_size = 2; requested_time = evening; duration_minutes = none });
  read_create = λ _. ok (record {
    customer_id = 10;
    party_size = 2;
    requested_time = evening;
    table_id = none;
    duration_minutes = some 60;
    notes = none;
  });
  read_modify = λ _. ok (record {
    reservation_id = 31;
    changes = record { party_size = some 3; requested_time = none; table_id = none; notes = none };
  });
  read_cancel = λ _. ok (record { reservation_id = 31; reason = none });
  print_reservation = λ _. "{}";
  print_reservations = λ _. "[]";
  print_tables = λ _. "[]";
  print_pending = λ _ _. "{}";
}

abbrev service : ReservationService
service = record { approval_service = gate; settings = default_settings; event_bus = some bus }

abbrev model : LlmProvider
model = record {
  model_name = "qwen3:8b";
  generate = λ _. ok (record {
    content = none;
    tool_calls =
        record { name = "create_reservation"; arguments = "{}" }
        ∷ record { name = "modify_reservation"; arguments = "{}" }
        ∷ [];
  });
}

abbrev request : Request
request = record {
  task = "A table for two, please.";
  restaurant_id = 1;
  trigger_type = TriggerType.manager_request;
  initiated_by_user_id = some 7;
  triggering_event_id = none;
  correlation_id = none;
}

restaurant-BookingsOk : BookingsOk restaurant
restaurant-BookingsOk = record {
  issued = ground arith;
  distinct = ground arith;
  apart = ground arith;
}

abbrev booker : Agent
booker = reservation_agent "You book tables." model (reservation_tools json service)

abbrev agents : String → Option Agent
agents name = if str_eq name "reservation" then some booker else none

-- The model asks the reservation agent and then finishes.
abbrev orchestrator : Orchestrator
orchestrator = record {
  model_name = "qwen3:8b";
  generate = λ _.
      ok
        (record { content = none; tool_calls = record { name = "finish"; arguments = "{}" } ∷ [] });
  read_delegate = λ _. none;
  read_required_domains = λ _. some (record { domains = SpecialistName.reservation ∷ [] });
  specialists = λ name. Option.map (λ agent. ToolCalling.handle agent) (agents name);
  approval_service = some gate;
  max_delegations = 6;
  max_retries_per_agent = 1;
  decide_system_prompt = "Delegate or finish.";
  scope_system_prompt = "Name the domains.";
}

abbrev process : Process
process = record { checkpoints = []; session = restaurant }

orchestrated-NoDoubleBooking_example :
    NoDoubleBooking (handle orchestrator request process).1.session
orchestrated-NoDoubleBooking_example =
    orchestrated-NoDoubleBooking json service (bus_keeps BookingsOk) (bus_keeps BookingsOk)
      "You book tables." model agents orchestrator request process (λ name. refl) refl
      (λ name agent other e. elim (Bool-cases (str_eq name "reservation")) [
        | inl same ↦ absurd (other (ground (arith, same, eq_iff name "reservation")))
        | inr differs ↦ absurd (cc (rw differs at e))
      ])
      restaurant-BookingsOk
