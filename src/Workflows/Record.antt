-- ===== src/Workflows/Record.antt =====
-- What the row of a workflow run says once the run is over.
use restaurant_sahayak.Base.{
  ℕ, ◌+◌, ◌≡◌, refl, String, some, [], ◌∷◌, ◌++◌, if◌then◌else◌, Bool-cases, inl, inr, find,
  find-update_self, find_new,
}
use restaurant_sahayak.Errors.{Result, ok, err}
use restaurant_sahayak.Exec.{Keeps, after, throw}
use restaurant_sahayak.Models.{Session}
use restaurant_sahayak.Models.Runs.{RunStatus, WorkflowRun, workflow_run_row}
use restaurant_sahayak.Workflows.{
  BackgroundWorkflow, new_workflow_run, create_workflow_run, as_completed, as_failed, is_cancelled,
  finish, execute_run, run,
}

-- The workflow run has its row.
abbrev pub HasWorkflowRun : ℕ → Session → Type 0
HasWorkflowRun id s = (r : WorkflowRun) × (find id s.workflow_runs ≡ some r)

-- The row tells how `_execute` ended: with this result, or with this exception.
abbrev pub Tells : Result String → ℕ → WorkflowRun → Type 0
Tells (ok result) now r =
    (r.status ≡ RunStatus.completed) × (r.final_result ≡ some result) × (r.completed_at ≡ some now)
Tells (err e) now r =
    (r.status ≡ RunStatus.failed) × (r.error ≡ some e) × (r.completed_at ≡ some now)

-- The session in which `_execute` starts
abbrev pub launched : BackgroundWorkflow → ℕ → String → Session → Session
launched workflow restaurant_id triggered_by s = record s {
  workflow_runs = s.workflow_runs ++ new_workflow_run workflow restaurant_id triggered_by s ∷ [];
  next_id = s.next_id + 2;
}

-- The run returned, and its row tells how `_execute` ended.
abbrev Returned : ℕ → Result String × Session → Result ℕ × Session → Type 0
Returned id done out =
    (s' : Session) × (out ≡ (ok id, s'))
    × (r : WorkflowRun) × (find id s'.workflow_runs ≡ some r)
    × Tells done.0 done.1.now r

-- How a run ends, by how `_execute` has ended and the session that this has left: it returns, but a
-- cancellation is raised again, with nothing written.
abbrev pub Concludes : ℕ → Result String × Session → Result ℕ × Session → Type 0
Concludes id (ok result, s) out = Returned id (ok result, s) out
Concludes id (err e, s) out =
    if is_cancelled e then (out ≡ (err e, s)) else Returned id (err e, s) out

-- The end of a run, by how `_execute` ended
finished :
    (id : ℕ) (done : Result String × Session)
    → HasWorkflowRun id done.1
    → Concludes id done (
        after
          (λ result. finish id (as_completed result))
          (λ e. if is_cancelled e then throw e else finish id (as_failed e))
          done)
unfolding finish
finished id (ok result, s) (r, found) = (
  _,
  refl,
  as_completed result s.now r,
  find-update_self id (as_completed result s.now) s.workflow_runs r (λ x. refl) found,
  (refl, refl, refl),
)
finished id (err e, s) (r, found) = elim (Bool-cases (is_cancelled e)) [
  | inl cancelled ↦ rw cancelled refl
  | inr failed ↦ rw failed (
    _,
    refl,
    as_failed e s.now r,
    find-update_self id (as_failed e s.now) s.workflow_runs r (λ x. refl) found,
    (refl, refl, refl),
  )
]

-- A workflow run returns, also if its work raises, unless it is cancelled: a cancellation is raised
-- again, and nothing is written then. A run that returns has its row "completed" with the result of
-- the work or "failed" with its exception, and with the time of the end, if the work leaves the row
-- in place.
pub run-Tells :
    (workflow : BackgroundWorkflow) (restaurant_id : ℕ) (triggered_by : String) (s : Session)
    → ((correlation_id : ℕ)
        → Keeps (HasWorkflowRun s.next_id) (workflow.execute restaurant_id correlation_id))
    → Concludes s.next_id
        (workflow.execute restaurant_id
          (s.next_id + 1)
          (launched workflow restaurant_id triggered_by s))
        (run workflow restaurant_id triggered_by s)
unfolding run create_workflow_run execute_run
run-Tells workflow restaurant_id triggered_by s keeps =
    finished s.next_id
      (workflow.execute restaurant_id (s.next_id + 1)
        (launched workflow restaurant_id triggered_by s))
      ((keeps (s.next_id + 1)).at (launched workflow restaurant_id triggered_by s) (
        find_new s.next_id s.workflow_runs (new_workflow_run workflow restaurant_id triggered_by s)
          refl))
