-- ===== src/Approvals/Outcomes.antt =====
-- How a single decision ends, on every branch: the guard, and the containment of the executor.
use restaurant_sahayak.Base.{
  ℕ, ◌≡◌, ◌≢◌, refl, Option, none, some, String, str_eq, Bool-cases, inl, inr, arith,
  find-update_self, find, update, Text,
}
use restaurant_sahayak.Errors.{
  ok, err, Exn, ToolError, tool_error, approval_not_found, approval_expired,
  approval_already_decided,
}
use restaurant_sahayak.Models.{Session, rollback}
use restaurant_sahayak.Models.Enums.{ApprovalStatus, pending, expired}
use restaurant_sahayak.Models.Approvals.{Approval, Decision, success, failed, approval_row}
use restaurant_sahayak.Approvals.{
  ApprovalService, Executor, save, with_result, record_result, run_executor, execute,
  apply_executor, get_row, carry_out, announce, publish_approval, remember, approved_by,
  require_pending, check_pending, approve, reject,
}

abbrev pub refused_as : ℕ → ApprovalStatus → ToolError
refused_as id expired = approval_expired id
refused_as id status = approval_already_decided id status

-- What the guard answers where no pending approval is found
abbrev pub refusal : ℕ → Option Approval → ToolError
refusal id none = approval_not_found id
refusal id (some a) = refused_as id a.status

abbrev pub NotPending : Option Approval → Type 0
NotPending none = Unit
NotPending (some a) = a.status ≢ pending

check_pending-refusal :
    (id : ℕ) (found : Option Approval) (s : Session)
    → NotPending found
    → check_pending id found s ≡ (err (tool_error (refusal id found)), s)
unfolding check_pending
check_pending-refusal id none s h = refl
check_pending-refusal id (some a) s h = ground arith

-- Where the approval is missing, expired or already decided, `approve` and `reject` raise the
-- error for that case and change nothing; no executor, memory or handler is called.
pub decisions_refused :
    (service : ApprovalService) (id user : ℕ) (reason : Option Text) (s : Session)
    → NotPending (find id s.approvals)
    → (approve service id user s ≡ (err (tool_error (refusal id (find id s.approvals))), s))
      × (reject service id user reason s ≡ (err (tool_error (refusal id (find id s.approvals))), s))
unfolding approve reject require_pending
decisions_refused service id user reason s h =
    let refused = check_pending-refusal id (find id s.approvals) s h in
    (rw refused refl, rw refused refl)

pending_passes :
    (id : ℕ) (a : Approval) (s : Session)
    → find id s.approvals ≡ some a
    → a.status ≡ pending
    → require_pending id s ≡ (ok a, s)
unfolding require_pending check_pending
pending_passes id a s e h = rw e (ground arith)

pub get_row_lem :
    (id : ℕ) (a : Approval) (s : Session) → find id s.approvals ≡ some a → get_row id s ≡ (ok a, s)
unfolding get_row
get_row_lem id a s e = ground arith

-- The two ends of an executor, in a session that has the row
module _ (service : ApprovalService) (executor : Executor) (id : ℕ) (a : Approval)
    (s t : Session) where
  execute_failing :
      (e : Exn)
      → find id s.approvals ≡ some a
      → service.executors a.domain ≡ some executor
      → executor id s ≡ (err e, t)
      → execute service id s ≡ (
        ok tt,
        record (rollback s t) { approvals = update id (with_result (failed e) t.now) s.approvals },
      )
  unfolding execute apply_executor run_executor record_result save
  execute_failing e found wired ran =
      rw (get_row_lem id a s found) (rw (wired, apply_executor) (rw ran refl))

  execute_succeeding :
      (r : ℕ)
      → find id s.approvals ≡ some a
      → service.executors a.domain ≡ some executor
      → executor id s ≡ (ok r, t)
      → execute service id s
        ≡ (ok tt, record t { approvals = update id (with_result (success r) t.now) t.approvals })
  unfolding execute apply_executor run_executor record_result save
  execute_succeeding r found wired ran =
      rw (get_row_lem id a s found) (rw (wired, apply_executor) (rw ran refl))

module _ (service : ApprovalService) (unheard : service.event_bus ≡ none)
    (forgotten : service.memory_service ≡ none) where
  publish_silent :
      (event_type : String) (id : ℕ) (decision : Option Decision) (s : Session)
      → publish_approval service.event_bus event_type id decision s ≡ (ok tt, s)
  unfolding publish_approval
  publish_silent event_type id decision s = rw (unheard, publish_approval) refl

  carry_out_silent :
      (id : ℕ) (b : Approval) (s t : Session)
      → execute service id s ≡ (ok tt, t)
      → find id t.approvals ≡ some b
      → carry_out service id s ≡ (ok id, t)
  unfolding carry_out announce remember
  carry_out_silent id b s t ran e = rw ran (
      rw (forgotten, remember)
        (rw (get_row_lem id b t e) (elim (Bool-cases (str_eq b.domain "purchase")) [
          | inl yes_p ↦ rw yes_p (
              rw (publish_silent "purchase.approved" id none t)
                (rw (publish_silent "approval.completed" id (some Decision.approved) t) refl))
          | inr no_p ↦
              rw no_p (rw (publish_silent "approval.completed" id (some Decision.approved) t) refl)
        ])))

module _ (service : ApprovalService) (executor : Executor) (id user : ℕ) (a : Approval)
    (s : Session) (unheard : service.event_bus ≡ none) (forgotten : service.memory_service ≡ none)
    (found : find id s.approvals ≡ some a) (open_a : a.status ≡ pending)
    (wired : service.executors a.domain ≡ some executor) where
  -- The session with the decision, on which the executor runs
  abbrev decided : Session
  decided = record s { approvals = update id (approved_by user s.now) s.approvals }

  abbrev approved_a : Approval
  approved_a = approved_by user s.now a

  found_approved : find id decided.approvals ≡ some approved_a
  found_approved = find-update_self id (approved_by user s.now) s.approvals a (λ x. refl) found

  -- An executor that raises is undone, and the decision stands: `approve` returns, the approval is
  -- approved by the user with the exception as its failed result, and every other table is as
  -- before the call.
  pub approve_contains_failure :
      (e : Exn) (t : Session)
      → executor id decided ≡ (err e, t)
      → approve service id user s ≡ (
        ok id,
        record (rollback decided t) {
          approvals = update id (with_result (failed e) t.now) decided.approvals;
        },
      )
  unfolding approve
  approve_contains_failure e t ran = rw (pending_passes id a s found open_a) (
      unfold save in
      carry_out_silent service unheard forgotten id (with_result (failed e) t.now approved_a)
        decided _
        (execute_failing service executor id approved_a decided t e found_approved wired ran)
        (find-update_self id (with_result (failed e) t.now) decided.approvals approved_a (λ x. refl)
          found_approved))

  -- An executor that returns has its writes kept, and the approval records the row that it
  -- returned as its successful result.
  pub approve_executes :
      (r : ℕ) (t : Session)
      → executor id decided ≡ (ok r, t)
      → find id t.approvals ≡ some (approved_by user s.now a)
      → approve service id user s
        ≡ (ok id, record t { approvals = update id (with_result (success r) t.now) t.approvals })
  unfolding approve
  approve_executes r t ran still = rw (pending_passes id a s found open_a) (
      unfold save in
      carry_out_silent service unheard forgotten id (with_result (success r) t.now approved_a)
        decided _
        (execute_succeeding service executor id approved_a decided t r found_approved wired ran)
        (find-update_self id (with_result (success r) t.now) t.approvals approved_a (λ x. refl)
          still))
