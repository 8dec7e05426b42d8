-- ===== src/Workflows/Ticks.antt =====
-- The loop of a job outlives every failure of the job.
use restaurant_sahayak.Base.{
  ℕ, zero, suc, ◌+◌, ◌*◌, ◌≤◌, ◌≡◌, refl, false, arith, Bool-cases, inl, inr, if◌then◌else◌,
}
use restaurant_sahayak.Errors.{Result, ok, err}
use restaurant_sahayak.Exec.{pure, throw, after}
use restaurant_sahayak.Models.{Session}
use restaurant_sahayak.Workflows.{is_cancelled}
use restaurant_sahayak.Workflows.Scheduler.{Job, Scheduler, tick, rounds, loop}

-- A run of the job that is not cancelled
abbrev pub NotCancelled : Result (Unit {0}) → Type 0
NotCancelled (ok u) = Unit
NotCancelled (err e) = is_cancelled e ≡ false

-- A round returns, in the session that the job has left.
tick-returns :
    (job : Job) (s : Session) → NotCancelled (job.func s).0 → tick job s ≡ (ok tt, (job.func s).1)
unfolding tick
tick-returns job s h = ended (job.func s) h
  where
    ended :
        (out : Result (Unit {0}) × Session)
        → NotCancelled out.0
        → after (λ u. pure tt) (λ e. if is_cancelled e then throw e else pure tt) out
          ≡ (ok tt, out.1)
    ended (ok u, s') h = refl
    ended (err e, s') h = rw h refl

module _ (sleep : ℕ → Session → Session) (job : Job)
    (free : (s : Session) → NotCancelled (job.func s).0)
    (forward : (s : Session) → s.now ≤ (job.func s).1.now)
    (sleeps : (s : Session)
      → s.now + job.interval_seconds * 1000000 ≤ (sleep job.interval_seconds s).now) where
  rounds-go_on :
      (n : ℕ) (s : Session)
      → (s' : Session) × (rounds sleep job n s ≡ (ok tt, s'))
        × (s.now + n * (job.interval_seconds * 1000000) ≤ s'.now)
  unfolding rounds
  rounds-go_on zero s = (s, refl, omega arith)
  rounds-go_on (suc n) s =
      let s1 = (job.func s).1 in
      let s2 = sleep job.interval_seconds s1 in
      let (s', same, late) = rounds-go_on n s2 in
      let begun = forward s in
      let slept = sleeps s1 in (s', rw (tick-returns job s (free s)) same, ground arith)

  -- Whatever its runs come to, the loop of a job goes on: each number of rounds is reached, and from one
  -- to the next at least the interval passes, if no run is cancelled, the clock does not go back
  -- during a run and a sleep takes its time.
  pub loop-goes_on :
      (scheduler : Scheduler) (n : ℕ) (s : Session)
      → (s' : Session) × (loop sleep scheduler job n s ≡ (ok tt, s'))
        × (s.now + n * (job.interval_seconds * 1000000) ≤ s'.now)
  unfolding loop
  loop-goes_on scheduler n s = elim (Bool-cases scheduler.run_immediately) [
    | inl now ↦ rw now (rounds-go_on n s)
    | inr later ↦
        let (s', same, late) = rounds-go_on n (sleep job.interval_seconds s) in
        let slept = sleeps s in rw later (s', same, omega arith)
  ]
