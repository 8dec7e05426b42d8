-- ===== src/Workflows/Reactions.antt =====
-- The workflows that react to events (app/workflows/inventory_workflow.py) and their registration
-- (app/workflows/registry.py). How Python prints the values of a payload is a parameter.
use restaurant_sahayak.Base.{ℕ, String, Option, none, some}
use restaurant_sahayak.Errors.{Result, ok, err}
use restaurant_sahayak.Exec.{pure, ◌>>◌}
use restaurant_sahayak.Models.{Action}
use Prim.Native.String.{◌++◌}
use restaurant_sahayak.Models.Approvals.{Payload, reservation_created, inventory_low}
use restaurant_sahayak.Models.Enums.{TriggerType}
use restaurant_sahayak.Events.{EventEnvelope, EventBus, subscribe}
use restaurant_sahayak.ToolCalling
use restaurant_sahayak.ToolCalling.{Agent, Task}

-- How Python prints the values of a payload: an int, an ISO 8601 time and a Decimal
pub record Printers : Type 0 where
  pub print_count : ℕ → String
  pub print_time : ℕ → String
  pub print_quantity : ℕ → String

-- `payload.get("party_size", ...)` and the others; no other payload has these keys.
abbrev pub party_size_of : Printers → Payload → String
party_size_of printers (reservation_created id customer table party_size time) =
    printers.print_count party_size
party_size_of printers _ = "an unspecified number of"

abbrev pub requested_time_of : Printers → Payload → String
requested_time_of printers (reservation_created id customer table party_size time) =
    printers.print_time time
requested_time_of printers _ = "an upcoming time"

abbrev pub item_name_of : Payload → String
item_name_of (inventory_low id name on_hand threshold required shortfall) = name
item_name_of _ = "An inventory item"

abbrev pub quantity_on_hand_of : Printers → Payload → String
quantity_on_hand_of printers (inventory_low id name on_hand threshold required shortfall) =
    printers.print_quantity on_hand
quantity_on_hand_of printers _ = "None"

abbrev pub threshold_of : Printers → Payload → String
threshold_of printers (inventory_low id name on_hand threshold required shortfall) =
    printers.print_quantity threshold
threshold_of printers _ = "None"

-- The f-string of `handle_reservation_created`
abbrev pub created_instruction : Printers → Payload → String
created_instruction printers payload =
    "A new reservation was just booked for "
    ++ party_size_of printers payload
    ++ " people at "
    ++ requested_time_of printers payload
    ++ ". Check whether current stock levels are sufficient for this additional demand, "
    ++ "and flag anything that looks like it might run low."

-- The f-string of `handle_inventory_low`
abbrev pub low_instruction : Printers → Payload → String
low_instruction printers payload =
    item_name_of payload
    ++ " is running low: "
    ++ quantity_on_hand_of printers payload
    ++ " on hand against a threshold of "
    ++ threshold_of printers payload
    ++ ". Analyze how much is actually needed given recent usage, and place a "
    ++ "purchase request if one is warranted."

-- The arguments of `inventory_agent.handle`
abbrev pub task_of : String → EventEnvelope → Task
task_of instruction event = record {
  task = instruction;
  restaurant_id = event.restaurant_id;
  trigger_type = TriggerType.event;
  initiated_by_user_id = none;
  triggering_event_id = some event.event_id;
  parent_run_id = none;
  correlation_id = none;
}

-- `handle_reservation_created`
unfoldable pub handle_reservation_created : Printers → Agent → EventEnvelope → Action (Unit {0})
handle_reservation_created printers inventory_agent event =
    ToolCalling.handle inventory_agent (task_of (created_instruction printers event.payload) event)
    >> pure tt

-- `handle_inventory_low`
unfoldable pub handle_inventory_low : Printers → Agent → EventEnvelope → Action (Unit {0})
handle_inventory_low printers inventory_agent event =
    ToolCalling.handle inventory_agent (task_of (low_instruction printers event.payload) event)
    >> pure tt

-- The second subscription, if the first returned
unfoldable pub register_inventory_low : Printers → Agent → Result EventBus → Result EventBus
register_inventory_low printers inventory_agent (err e) = err e
register_inventory_low printers inventory_agent (ok bus) =
    subscribe bus "inventory.low" (handle_inventory_low printers inventory_agent) "partial"
      (some "inventory_workflow.handle_inventory_low")

-- `register_default_workflows`
unfoldable pub register_default_workflows : Printers → EventBus → Option Agent → Result EventBus
register_default_workflows printers bus none = ok bus
register_default_workflows printers bus (some inventory_agent) =
    register_inventory_low printers inventory_agent (
      subscribe bus "reservation.created" (handle_reservation_created printers inventory_agent)
        "partial" (some "inventory_workflow.handle_reservation_created"))
