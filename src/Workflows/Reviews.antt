-- ===== src/Workflows/Reviews.antt =====
-- A periodic review by an agent always completes, whatever becomes of the agent's run.
use restaurant_sahayak.Base.{ℕ, ◌+◌, ◌≡◌, ap, sym, String, some, find}
use mathlib.Core.Path.{subst}
use restaurant_sahayak.Errors.{Result, ok}
use restaurant_sahayak.Exec.{Keeps-bind, Keeps-pure}
use restaurant_sahayak.Models.{Session}
use restaurant_sahayak.Models.Runs.{RunStatus, WorkflowRun, agent_run_row, workflow_run_row}
use restaurant_sahayak.ToolCalling
use restaurant_sahayak.ToolCalling.{Agent, AgentStatus, AgentResult, run_status}
use restaurant_sahayak.ToolCalling.Preserves.{ToolsKeep}
use restaurant_sahayak.ToolCalling.Outcome.{HasRun, Recorded, handle_records}
use restaurant_sahayak.ToolCalling.Sessions.{handle-Keeps}
use restaurant_sahayak.Workflows.{run}
use restaurant_sahayak.Workflows.Record.{HasWorkflowRun, launched, run-Tells}
use restaurant_sahayak.Workflows.Monitoring.{
  PrintResult, inventory_monitoring_task, scheduled_task, execute, inventory_monitoring,
}

-- The agent's run has come to this result, which its row records, and the row of the workflow run is
-- completed with it.
abbrev pub Reviewed : PrintResult → Result AgentResult × Session → ℕ → Session → Type 0
Reviewed print reviewed id s =
    (result : AgentResult) × (reviewed.0 ≡ ok result)
    × Recorded result reviewed.1
    × (r : WorkflowRun) × (find id s.workflow_runs ≡ some r)
    × (r.status ≡ RunStatus.completed)
    × (r.final_result ≡ some (print result.status result.summary))

-- A review of the inventory always returns, whatever the model answers and whichever tools raise, and
-- its row is completed with the status and the summary of the agent's run, also where that run is
-- an error, if the tools leave the rows of the two runs in place.
pub inventory_monitoring_completes :
    (print : PrintResult) (inventory_agent : Agent) (restaurant_id : ℕ) (triggered_by : String)
    (s : Session)
    → ToolsKeep (HasWorkflowRun s.next_id) inventory_agent.tools
    → ToolsKeep (HasRun (s.next_id + 2)) inventory_agent.tools
    → (s' : Session) × (run
          (inventory_monitoring print inventory_agent)
          restaurant_id
          triggered_by
          s
        ≡ (ok s.next_id, s'))
      × Reviewed print
          (ToolCalling.handle inventory_agent
            (scheduled_task inventory_monitoring_task restaurant_id (s.next_id + 1))
            (launched (inventory_monitoring print inventory_agent) restaurant_id triggered_by s))
          s.next_id
          s'
unfolding inventory_monitoring execute
inventory_monitoring_completes print inventory_agent restaurant_id triggered_by s leaves_run
      leaves_agent_run =
    let workflow = inventory_monitoring print inventory_agent in
    let start = launched workflow restaurant_id triggered_by s in
    let t = scheduled_task inventory_monitoring_task restaurant_id (s.next_id + 1) in
    let (result, s'', handled, _, recorded) =
      handle_records inventory_agent t start leaves_agent_run in
    let concluded = run-Tells workflow restaurant_id triggered_by s (λ correlation_id.
      Keeps-bind (HasWorkflowRun s.next_id) (ToolCalling.handle inventory_agent _) _
        (handle-Keeps (HasWorkflowRun s.next_id) (λ s runs messages n le h. h) inventory_agent
          (scheduled_task inventory_monitoring_task restaurant_id correlation_id) leaves_run)
        λ result. Keeps-pure _ _) in
    let (s', ran, r, found, told) = rw handled at concluded in
    (
      s',
      ran,
      (
        result,
        ap (λ (out : Result AgentResult × Session). out.0) handled,
        subst (λ (out : Result AgentResult × Session). Recorded result out.1) (sym handled)
            recorded,
        r,
        found,
        told.0,
        told.1,
      ),
    )
