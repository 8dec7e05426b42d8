-- ===== src/Workflows.antt =====
-- `BackgroundWorkflow` (app/workflows/background_workflow.py) and its repository
-- (app/repositories/workflow_run_repo.py). What a concrete workflow does, `_execute`, is a
-- parameter: it calls an agent. The telemetry is left out.
pub mod Record
pub mod Reactions
pub mod Registered
pub mod Monitoring
pub mod Reviews
pub mod Scheduler
pub mod Ticks
use restaurant_sahayak.Base.{
  ℕ, ◌+◌, String, str_eq, Bool, false, if◌then◌else◌, Option, none, some, List, [], ◌∷◌, ◌++◌,
  update,
}
use restaurant_sahayak.Errors.{Exn, other}
use restaurant_sahayak.Exec.{pure, throw, try_except, ◌>>=◌}
use restaurant_sahayak.Models.{Session, Action}
use restaurant_sahayak.Models.Runs.{RunStatus, WorkflowRun, workflow_run_row}

-- A concrete workflow; `execute` takes the restaurant and the correlation id, and returns JSON.
pub record BackgroundWorkflow : Type 0 where
  pub workflow_type : String
  pub execute : ℕ → ℕ → Action String

-- The row of a run that starts; its correlation id is a second fresh identity.
abbrev pub new_workflow_run : BackgroundWorkflow → ℕ → String → Session → WorkflowRun
new_workflow_run workflow restaurant_id triggered_by s = record {
  id = s.next_id;
  workflow_type = workflow.workflow_type;
  restaurant_id = restaurant_id;
  correlation_id = s.next_id + 1;
  status = RunStatus.running;
  triggered_by = triggered_by;
  final_result = none;
  error = none;
  started_at = s.now;
  completed_at = none;
}

-- `workflow_run_repo.create`
unfoldable pub create_workflow_run : BackgroundWorkflow → ℕ → String → Action WorkflowRun
create_workflow_run workflow restaurant_id triggered_by s =
    pure (new_workflow_run workflow restaurant_id triggered_by s) (record s {
      workflow_runs =
          s.workflow_runs ++ new_workflow_run workflow restaurant_id triggered_by s ∷ [];
      next_id = s.next_id + 2;
    })

abbrev pub as_completed : String → ℕ → WorkflowRun → WorkflowRun
as_completed result now r = record r {
  status = RunStatus.completed;
  final_result = some result;
  completed_at = some now;
}

abbrev pub as_failed : Exn → ℕ → WorkflowRun → WorkflowRun
as_failed e now r = record r { status = RunStatus.failed; error = some e; completed_at = some now }

-- Assignments to the row, `completed_at`, and `workflow_run_repo.save`
unfoldable pub finish : ℕ → (ℕ → WorkflowRun → WorkflowRun) → Action ℕ
finish id f s = pure id (record s { workflow_runs = update id (f s.now) s.workflow_runs })

-- `asyncio.CancelledError`, which `except Exception` does not catch
abbrev pub is_cancelled : Exn → Bool
is_cancelled (other name) = str_eq name "CancelledError"
is_cancelled _ = false

-- `run`, from the call of `_execute` on
unfoldable pub execute_run : BackgroundWorkflow → ℕ → WorkflowRun → Action ℕ
execute_run workflow restaurant_id r =
    try_except (workflow.execute restaurant_id r.correlation_id)
      (λ result. finish r.id (as_completed result))
      (λ e. if is_cancelled e then throw e else finish r.id (as_failed e))

-- `run`
unfoldable pub run : BackgroundWorkflow → ℕ → String → Action ℕ
run workflow restaurant_id triggered_by = do
  r ← create_workflow_run workflow restaurant_id triggered_by
  execute_run workflow restaurant_id r
