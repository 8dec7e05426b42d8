-- ===== src/Orchestrator/Runs.antt =====
-- Whole calls of the orchestrator: `handle`, and `resume` of a paused thread.
use restaurant_sahayak.Base.{
  ℕ, ◌-◌, ◌≡◌, refl, Option, none, some, All-find, All-remove, Issued, find, remove, find-Issued,
  arith,
}
use restaurant_sahayak.Exec.{Returns, Returns-map, after, throw, modify, ◌>>◌}
use restaurant_sahayak.Errors.{Result, ok, err}
use restaurant_sahayak.Models.{Session}
use restaurant_sahayak.Models.Approvals.{approval_row}
use restaurant_sahayak.Models.Runs.{AgentRun, Role, MessageContent, agent_run_row}
use restaurant_sahayak.AgentRuns.{start_run, log_message, new_run}
use restaurant_sahayak.Orchestrator.State.{GraphState}
use restaurant_sahayak.Orchestrator.Nodes
use restaurant_sahayak.Orchestrator.Nodes.{Orchestrator, Answer}
use restaurant_sahayak.Orchestrator.Graph.{
  Node, identify_scope, decide, await_approval, GraphOutcome, done, interrupted, go_to, route, walk,
}
use restaurant_sahayak.Orchestrator.Service.{
  Checkpoint, Process, Request, Unpaused, handle, resume, resume_thread, conclude, invoke, finalize,
  finalize_error, run_of, initial_state, recursion_limit, checkpoint_row,
}
use restaurant_sahayak.Orchestrator.Steps.{Sound, Fits, here, next, resuming}
use restaurant_sahayak.Orchestrator.Updates.{Resolved}
use restaurant_sahayak.Orchestrator.Updates.Calls.{await_approval-Resolved}
use restaurant_sahayak.Orchestrator.Steps.Holds.{Reach-holds}
use restaurant_sahayak.Orchestrator.Walks.{Reached, walk-Reached}
use restaurant_sahayak.Orchestrator.Results.{PausesSound, IsRunning, Ends, IsSound}
use restaurant_sahayak.Orchestrator.Endings.{finalize_error-Ends, invoke-Ends}
use restaurant_sahayak.Orchestrator.Preserves.{
  SpecialistsKeep, ServicesKeep, walk-Keeps, await_approval-Keeps,
}

-- A sound start gives a sound outcome.
Reached-IsSound :
    (o : Orchestrator) (origin : Option Node) (start : GraphState) (outcome : GraphOutcome)
    → Sound o start × Fits origin start
    → Reached o origin start outcome
    → IsSound o outcome
Reached-IsSound o origin start (done st) h r = Reach-holds o h r
Reached-IsSound o origin start (interrupted st) h r = Reach-holds o h r

initial_state-Sound :
    (o : Orchestrator) (r : Request) (run : AgentRun) → Sound o (initial_state o r run)
initial_state-Sound o r run = record {
  budget = omega arith;
  attempts = tt;
  approvals = refl;
  named = tt;
}

pub walk-IsSound :
    (o : Orchestrator) (limit : ℕ) (r : Request) (run : AgentRun) (s : Session)
    → Returns (IsSound o) (walk o limit identify_scope (initial_state o r run) s)
walk-IsSound o limit r run s =
    let start = initial_state o r run in
    Returns-map (Reached o (some identify_scope) start) (IsSound o)
      (λ outcome.
        Reached-IsSound o (some identify_scope) start outcome (initial_state-Sound o r run, refl))
      (walk o limit identify_scope start s)
      (walk-Reached o limit (some identify_scope) start start identify_scope s here)

-- The process in which `handle` starts to walk
abbrev started : Orchestrator → Request → Process → Process
started o r p = record p {
  session =
      (log_message p.session.next_id Role.user none (MessageContent.task r.task)
        (start_run (run_of o r) p.session).1).1;
}

-- `handle` always returns, whatever the model answers and the specialists do, and whichever of them
-- raise. A completed result lists at most the allowed delegations, with every approval that one of
-- them ended in waiting for resolved; a paused one lists at most as many, with all these resolved but
-- the one that it names; an error lists none. The run's row is then completed, still running or
-- failed, and every paused thread is sound and waits for an approval, if that was so before, the
-- specialists leave the row running and its identity is fresh.
pub handle-Ends :
    (o : Orchestrator) (r : Request) (p : Process)
    → SpecialistsKeep (IsRunning p.session.next_id) o
    → Issued p.session.next_id p.session.agent_runs
    → PausesSound o p
    → Ends o p.session.next_id (handle o r p)
unfolding handle start_run log_message
handle-Ends o r p specialists issued pauses =
    let k = p.session.next_id in
    let run = new_run (run_of o r) p.session in
    let p' = started o r p in
    invoke-Ends o k (walk o recursion_limit identify_scope (initial_state o r run)) p'
      (walk-IsSound o recursion_limit r run p'.session)
      ((walk-Keeps (IsRunning k) o specialists recursion_limit identify_scope
          (initial_state o r run)).at
        p'.session ((run, find-Issued k p.session.agent_runs run refl issued, refl), omega arith)).0
      pauses

module _ (o : Orchestrator) (run_id : ℕ) (st : GraphState) (p : Process)
    (services : ServicesKeep (IsRunning run_id) o)
    (sound : Sound o st × Fits (some await_approval) st) (pauses : PausesSound o p) where
  -- A thread goes on once the node behind its pause has returned, and else stays as it was.
  gone_on :
      (out : Result GraphState × Session)
      → Returns (Resolved st) out
      → IsRunning run_id out.1
      → Ends o run_id (
          after
            (finalize run_id)
            (λ e. finalize_error run_id)
            (after
              (λ u.
                modify (λ p. record p { checkpoints = remove run_id p.checkpoints })
                >> invoke run_id (go_to (walk o (recursion_limit - 1)) (route await_approval u) u))
              throw
              (out.0, record p { session = out.1 })))
  unfolding go_to route conclude
  gone_on (err e, s) _ running =
      finalize_error-Ends o run_id (record p { session = s }) running.0 pauses
  gone_on (ok u, s) step running =
      let left = recursion_limit - 1 in
      invoke-Ends o run_id (walk o left decide u)
        (record p { checkpoints = remove run_id p.checkpoints; session = s })
        (Returns-map (Reached o (some await_approval) st) (IsSound o)
          (λ outcome. Reached-IsSound o (some await_approval) st outcome sound)
          (walk o left decide u s)
          (walk-Reached o left (some await_approval) st u decide s (next here (resuming step))))
        ((walk-Keeps (IsRunning run_id) o services.specialists left decide u).at s running).0
        (All-remove (λ d. Sound o d.state × Fits (some await_approval) d.state) run_id p.checkpoints
          pauses)

-- `resume` of a paused thread always returns, whatever the decision and whoever decides, with a result
-- and a row as `handle`'s: a completed or paused result lists at most the allowed delegations of the
-- whole thread, with the approvals that they ended in waiting for resolved, but for the one that a
-- paused result names; an error lists none. Every paused thread is sound then, if that was so before
-- and if the specialists and the decisions of the approval service leave the run's row running.
pub resume-Ends :
    (o : Orchestrator) (unpaused : Unpaused) (run_id : ℕ) (answer : Answer) (p : Process)
    (c : Checkpoint)
    → find run_id p.checkpoints ≡ some c
    → ServicesKeep (IsRunning run_id) o
    → IsRunning run_id p.session
    → PausesSound o p
    → Ends o run_id (resume o unpaused run_id answer p)
unfolding resume resume_thread conclude
resume-Ends o unpaused run_id answer p c found services running pauses = rw found (
    gone_on o run_id c.state p services
      (All-find (λ d. Sound o d.state × Fits (some await_approval) d.state) run_id p.checkpoints c
        pauses found)
      pauses (Nodes.await_approval o answer c.state p.session)
      (await_approval-Resolved o c.state answer p.session)
      ((await_approval-Keeps (IsRunning run_id) o services answer c.state).at p.session running))
