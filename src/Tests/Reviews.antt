-- ===== src/Tests/Reviews.antt =====
-- The reviews and reactions of the test restaurant: the model never answers.
use restaurant_sahayak.Base.{
  ◌++◌, ◌≢◌, String, arith, true, ℕ, ◌*◌, ◌≤◌, ◌+◌, ◌≡◌, refl, some, [], ◌∷◌,
}
use restaurant_sahayak.Errors.{ok, err, other}
use restaurant_sahayak.Exec.{throw, Keeps-throw}
use restaurant_sahayak.Models.{Session}
use restaurant_sahayak.Events.{EventBus}
use restaurant_sahayak.Events.Preserves.{HandlersKeep}
use restaurant_sahayak.ToolCalling
use restaurant_sahayak.ToolCalling.{Agent, Tool}
use restaurant_sahayak.ToolCalling.Preserves.{ToolsKeep}
use restaurant_sahayak.Reservations.Bookings.{BookingsOk}
use restaurant_sahayak.Agents.Reservations.{BookingsOk-runs}
use restaurant_sahayak.Workflows.{run}
use restaurant_sahayak.Workflows.Record.{launched}
use restaurant_sahayak.Workflows.Reactions.{
  Printers, created_instruction, low_instruction, register_default_workflows,
}
use restaurant_sahayak.Workflows.Registered.{runs_agent, register_default_workflows-HandlersKeep}
use restaurant_sahayak.Workflows.Monitoring.{
  inventory_monitoring_task, PrintResult, scheduled_task, inventory_monitoring,
}
use restaurant_sahayak.Workflows.Scheduler.{Job, loop}
use restaurant_sahayak.Workflows.Ticks.{loop-goes_on}
use restaurant_sahayak.Workflows.Reviews.{Reviewed, inventory_monitoring_completes}
use restaurant_sahayak.Tests.{restaurant, bus, bus_keeps}

abbrev broken_tool : Tool
broken_tool = record { name = "check_stock"; call = λ _ _. throw (other "OperationalError") }

abbrev agent : Agent
agent = record {
  name = "inventory";
  system_prompt = "You watch the stock.";
  model_name = "qwen3:8b";
  generate = λ _. err (other "ReadTimeout");
  tools = broken_tool ∷ [];
  max_iterations = 8;
}

tools_keep : (P : Session → Type 0) → ToolsKeep P agent.tools
tools_keep P = ((λ arguments context. Keeps-throw P (other "OperationalError")), tt)

abbrev print : PrintResult
print status summary = "{}"

inventory_monitoring_completes_example :
    (s' : Session) × (run (inventory_monitoring print agent) 1 "scheduler" restaurant
      ≡ (ok 100, s'))
    × Reviewed print
        (ToolCalling.handle agent
          (scheduled_task inventory_monitoring_task 1 101)
          (launched (inventory_monitoring print agent) 1 "scheduler" restaurant))
        100
        s'
inventory_monitoring_completes_example =
    inventory_monitoring_completes print agent 1 "scheduler" restaurant (tools_keep _)
      (tools_keep _)

abbrev printers : Printers
printers = record {
  print_count = λ _. "2";
  print_time = λ _. "1970-01-01";
  print_quantity = λ _. "0";
}

register_default_workflows-HandlersKeep_example :
    (registered : EventBus) × (register_default_workflows printers bus (some agent) ≡ ok registered)
    × (registered.handlers "reservation.created"
        ≡ bus.handlers "reservation.created"
          ++ runs_agent "inventory_workflow.handle_reservation_created" agent
              (created_instruction printers)
            ∷ [])
    × (registered.handlers "inventory.low"
        ≡ bus.handlers "inventory.low"
          ++ runs_agent "inventory_workflow.handle_inventory_low" agent (low_instruction printers)
            ∷ [])
    × ((t : String)
        → t ≢ "reservation.created"
        → t ≢ "inventory.low"
        → registered.handlers t ≡ bus.handlers t)
    × HandlersKeep BookingsOk registered
register_default_workflows-HandlersKeep_example =
    register_default_workflows-HandlersKeep BookingsOk printers bus agent BookingsOk-runs
      (bus_keeps BookingsOk bus refl) (tools_keep BookingsOk)

-- A job that fails each time
abbrev failing : Job
failing = record {
  job_id = "inventory_monitoring";
  interval_seconds = 3600;
  func = throw (other "ReadTimeout");
}

abbrev sleep : ℕ → Session → Session
sleep seconds s = record s { now = s.now + seconds * 1000000 }

loop-goes_on_example :
    (s' : Session) × (loop sleep
        (record { run_immediately = true; jobs = failing ∷ [] })
        failing
        3
        restaurant
      ≡ (ok tt, s'))
    × (1000 + 3 * (3600 * 1000000) ≤ s'.now)
loop-goes_on_example =
    loop-goes_on sleep failing (λ s. refl) (λ s. omega arith) (λ s. omega arith)
      (record { run_immediately = true; jobs = failing ∷ [] }) 3 restaurant
