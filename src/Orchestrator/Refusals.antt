-- ===== src/Orchestrator/Refusals.antt =====
-- A decision that is not accepted: nobody is named for it, or the approval is not pending.
use mathlib.Core.Path.{subst₂}
use restaurant_sahayak.Base.{ℕ, ◌≡◌, refl, ap, sym, ◌⊎◌, inl, inr, Option, none, some, find}
use restaurant_sahayak.Errors.{ok, err, Exn, tool_error, decided_by_user_id_required}
use restaurant_sahayak.Exec.{pure, throw, after}
use restaurant_sahayak.Models.{Session}
use restaurant_sahayak.Models.Approvals.{Decision, approved, rejected, approval_row}
use restaurant_sahayak.Models.Runs.{AgentRun, RunStatus, agent_run_row}
use restaurant_sahayak.Approvals.{ApprovalService}
use restaurant_sahayak.Approvals.Outcomes.{NotPending, refusal, decisions_refused}
use restaurant_sahayak.Orchestrator.State.{GraphState}
use restaurant_sahayak.Orchestrator.Nodes
use restaurant_sahayak.Orchestrator.Nodes.{
  Orchestrator, Answer, decide_approval, resolve_by, resolve_with,
}
use restaurant_sahayak.Orchestrator.Service.{
  Checkpoint, Process, Unpaused, resume, resume_thread, conclude, finalize_error, failure_of,
  failure_summary, checkpoint_row,
}
use restaurant_sahayak.Orchestrator.Endings.{completed_as, recorded}

-- Nobody is named, or the approval is missing, expired or decided.
abbrev pub NotAccepted : Answer → ℕ → Session → Type 0
NotAccepted answer id s = (answer.decided_by_user_id ≡ none) ⊎ NotPending (find id s.approvals)

decide_refused :
    (service : ApprovalService) (id user : ℕ) (decision : Decision) (s : Session)
    → NotPending (find id s.approvals)
    → decide_approval service id user decision s
      ≡ (err (tool_error (refusal id (find id s.approvals))), s)
unfolding decide_approval
decide_refused service id user approved s h = (decisions_refused service id user none s h).0
decide_refused service id user rejected s h = (decisions_refused service id user none s h).1

resolve_refused :
    (service : ApprovalService) (decision : Decision) (st : GraphState) (id : ℕ) (user : Option ℕ)
    (s : Session)
    → (user ≡ none) ⊎ NotPending (find id s.approvals)
    → (e : Exn) × (resolve_by service decision st id user s ≡ (err e, s))
unfolding resolve_by
resolve_refused service decision st id none s h = (tool_error decided_by_user_id_required, refl)
resolve_refused service decision st id (some user) s (inl e) = absurd (cc e)
resolve_refused service decision st id (some user) s (inr h) = (
  tool_error (refusal id (find id s.approvals)),
  rw (decide_refused service id user decision s h) refl,
)

-- The node behind the pause raises, and writes nothing.
await_refused :
    (o : Orchestrator) (answer : Answer) (st : GraphState) (service : ApprovalService) (id : ℕ)
    (s : Session)
    → o.approval_service ≡ some service
    → st.pending_approval_id ≡ some id
    → NotAccepted answer id s
    → (e : Exn) × (Nodes.await_approval o answer st s ≡ (err e, s))
unfolding Nodes.await_approval resolve_with
await_refused o answer st service id s has_service waits h =
    let (e, refused) =
      resolve_refused service answer.decision st id answer.decided_by_user_id s h in
    (
      e,
      subst₂ (λ found waiting. resolve_with found answer st waiting s ≡ (err e, s))
          (sym has_service) (sym waits) refused,
    )

-- A resume without a user, or of an approval that is missing, expired or already decided, ends in an
-- error: nothing is decided, no specialist is asked, the thread stays paused, and the session is as
-- before but for the run's row, which is failed.
pub resume_refused :
    (o : Orchestrator) (unpaused : Unpaused) (service : ApprovalService) (run_id id : ℕ)
    (answer : Answer) (p : Process) (c : Checkpoint) (r : AgentRun)
    → o.approval_service ≡ some service
    → find run_id p.checkpoints ≡ some c
    → c.state.pending_approval_id ≡ some id
    → find run_id p.session.agent_runs ≡ some r
    → NotAccepted answer id p.session
    → resume o unpaused run_id answer p
      ≡ (ok (failure_of run_id), completed_as run_id RunStatus.failed failure_summary p)
unfolding resume resume_thread conclude finalize_error
resume_refused o unpaused service run_id id answer p c r has_service found waits row h =
    let (e, refused) = await_refused o answer c.state service id p.session has_service waits h in
    rw (found, refused)
      (ap (after (λ _. pure (failure_of run_id)) throw)
        (recorded run_id RunStatus.failed failure_summary p r row))
