-- ===== src/Workflows/Scheduler.antt =====
-- The scheduler (app/workflows/scheduler.py) and the registration of the periodic workflows
-- (app/workflows/background_registry.py). asyncio is a parameter: what the session is once a sleep is
-- over, since other jobs run meanwhile. `CancelledError` is how `stop` ends a loop.
use restaurant_sahayak.Base.{
  ℕ, zero, suc, String, str_eq, Bool, Option, some, List, [], ◌∷◌, ◌++◌, any, if◌then◌else◌,
}
use restaurant_sahayak.Errors.{Result, ok, err, other}
use restaurant_sahayak.Exec.{pure, throw, modify, try_except, ◌>>◌}
use restaurant_sahayak.Models.{Session, Action}
use restaurant_sahayak.Workflows.{BackgroundWorkflow, is_cancelled, run}

-- An entry of `_jobs`
pub record Job : Type 0 where
  pub job_id : String
  pub interval_seconds : ℕ
  pub func : Action (Unit {0})

-- `AsyncIOScheduler`
pub record Scheduler : Type 0 where
  pub run_immediately : Bool
  pub jobs : List Job

-- `register`
unfoldable pub register : Scheduler → Job → Result Scheduler
register scheduler job =
    if any (λ j. str_eq j.job_id job.job_id) scheduler.jobs
    then err (other "ValueError")
    else ok (record scheduler { jobs = scheduler.jobs ++ job ∷ [] })

-- The `try` of `_loop`
unfoldable pub tick : Job → Action (Unit {0})
tick job = try_except job.func (λ u. pure tt) (λ e. if is_cancelled e then throw e else pure tt)

-- The first rounds of the `while True` of `_loop`; `sleep` is `asyncio.sleep`.
unfoldable pub rounds : (ℕ → Session → Session) → Job → ℕ → Action (Unit {0})
rounds sleep job zero = pure tt
rounds sleep job (suc n) = tick job >> (modify (sleep job.interval_seconds) >> rounds sleep job n)

-- `_loop`, up to a number of rounds
unfoldable pub loop : (ℕ → Session → Session) → Scheduler → Job → ℕ → Action (Unit {0})
loop sleep scheduler job n =
    if scheduler.run_immediately
    then rounds sleep job n
    else (modify (sleep job.interval_seconds) >> rounds sleep job n)

-- A dict from workflow types to seconds
abbrev pub Intervals : Type 0
Intervals = List (String × ℕ)

abbrev pub default_intervals_seconds : Intervals
default_intervals_seconds =
    ("daily_briefing", 86400)
    ∷ ("inventory_monitoring", 3600)
    ∷ ("reservation_monitoring", 1800)
    ∷ ("staffing_monitoring", 3600)
    ∷ []

-- `intervals.get(workflow_type, 60 * 60)`
abbrev pub interval_of : String → Intervals → ℕ
interval_of workflow_type [] = 3600
interval_of workflow_type ((name, seconds) ∷ rest) =
    if str_eq name workflow_type then seconds else interval_of workflow_type rest

-- `intervals_seconds or DEFAULT_INTERVALS_SECONDS`: an empty dict counts as none.
abbrev pub intervals_or_default : Option Intervals → Intervals
intervals_or_default (some (i ∷ is)) = i ∷ is
intervals_or_default _ = default_intervals_seconds

abbrev pub job_of : ℕ → Intervals → String × BackgroundWorkflow → Job
job_of restaurant_id intervals (workflow_type, workflow) = record {
  job_id = workflow_type;
  interval_seconds = interval_of workflow_type intervals;
  func = run workflow restaurant_id "scheduler" >> pure tt;
}

-- The `for` loop
unfoldable pub register_all :
    ℕ → Intervals → List (String × BackgroundWorkflow) → Scheduler → Result Scheduler
register_all restaurant_id intervals [] scheduler = ok scheduler
register_all restaurant_id intervals (w ∷ ws) scheduler =
    elim (register scheduler (job_of restaurant_id intervals w)) [
      | ok next ↦ register_all restaurant_id intervals ws next
      | err e ↦ err e
    ]

-- `register_background_workflows`
unfoldable pub register_background_workflows :
    ℕ → Option Intervals → List (String × BackgroundWorkflow) → Scheduler → Result Scheduler
register_background_workflows restaurant_id intervals_seconds workflows scheduler =
    register_all restaurant_id (intervals_or_default intervals_seconds) workflows scheduler
