-- ===== src/Workflows/Monitoring.antt =====
-- The periodic reviews by one agent (app/workflows/inventory_monitoring_workflow.py and
-- app/workflows/staffing_monitoring_workflow.py). The printing of the result is a parameter.
use restaurant_sahayak.Base.{ℕ, String, none, some}
use restaurant_sahayak.Exec.{pure, ◌>>=◌}
use restaurant_sahayak.Models.{Action}
use restaurant_sahayak.Models.Enums.{TriggerType}
use restaurant_sahayak.Models.Runs.{Summary, agent_run_row, workflow_run_row}
use restaurant_sahayak.ToolCalling
use restaurant_sahayak.ToolCalling.{Agent, AgentStatus, AgentResult, Task, run_status}
use restaurant_sahayak.Workflows.{BackgroundWorkflow}

-- The JSON of `{"status": result.status, "summary": result.summary}`
abbrev pub PrintResult : Type 0
PrintResult = AgentStatus → Summary → String

-- The arguments of the agent's `handle`
abbrev pub scheduled_task : String → ℕ → ℕ → Task
scheduled_task task restaurant_id correlation_id = record {
  task = task;
  restaurant_id = restaurant_id;
  trigger_type = TriggerType.scheduled;
  initiated_by_user_id = none;
  triggering_event_id = none;
  parent_run_id = none;
  correlation_id = some correlation_id;
}

-- `_execute` of the two workflows
unfoldable pub execute : PrintResult → String → Agent → ℕ → ℕ → Action String
execute print task agent restaurant_id correlation_id = do
  result ← ToolCalling.handle agent (scheduled_task task restaurant_id correlation_id)
  pure (print result.status result.summary)

abbrev pub inventory_monitoring_task : String
inventory_monitoring_task =
    "Review current inventory. Identify anything low or out of stock, work out how much is actually needed given recent usage, and place purchase requests for anything that warrants reordering now. Report what you found and what you did."

abbrev pub staffing_monitoring_task : String
staffing_monitoring_task =
    "Check whether upcoming shifts are adequately staffed given expected reservations. For each shift you look at, compare who's scheduled against what's actually required, and flag any shortage clearly with how many more of which role are needed."

-- `InventoryMonitoringWorkflow`
unfoldable pub inventory_monitoring : PrintResult → Agent → BackgroundWorkflow
inventory_monitoring print inventory_agent = record {
  workflow_type = "inventory_monitoring";
  execute = execute print inventory_monitoring_task inventory_agent;
}

-- `StaffingMonitoringWorkflow`
unfoldable pub staffing_monitoring : PrintResult → Agent → BackgroundWorkflow
staffing_monitoring print staffing_agent = record {
  workflow_type = "staffing_monitoring";
  execute = execute print staffing_monitoring_task staffing_agent;
}
