-- ===== src/Tests/Workflows.antt =====
-- A workflow of the test restaurant whose work raises.
use restaurant_sahayak.Errors.{err, other}
use restaurant_sahayak.Exec.{Keeps-throw, throw}
use restaurant_sahayak.Models.Runs.{workflow_run_row}
use restaurant_sahayak.Workflows.{BackgroundWorkflow, run}
use restaurant_sahayak.Workflows.Record.{HasWorkflowRun, Concludes, launched, run-Tells}
use restaurant_sahayak.Tests.{restaurant}

abbrev briefing : BackgroundWorkflow
briefing = record { workflow_type = "daily_briefing"; execute = λ _ _. throw (other "ReadTimeout") }

run-Tells_example :
    Concludes 100
      (err (other "ReadTimeout"), launched briefing 1 "scheduler" restaurant)
      (run briefing 1 "scheduler" restaurant)
run-Tells_example =
    run-Tells briefing 1 "scheduler" restaurant
      (λ correlation_id. Keeps-throw (HasWorkflowRun 100) (other "ReadTimeout"))
