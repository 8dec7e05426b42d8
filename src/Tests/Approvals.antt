-- ===== src/Tests/Approvals.antt =====
-- The approvals of the test restaurant.
use restaurant_sahayak.Base.{◌≡◌, refl, ℕ, none, some, List, [], ◌∷◌, arith, update}
use restaurant_sahayak.Errors.{ok, err, tool_error, approval_already_decided, other}
use restaurant_sahayak.Exec.{pure, throw}
use restaurant_sahayak.Models.{Session, rollback}
use restaurant_sahayak.Models.Enums.{ApprovalStatus}
use restaurant_sahayak.Models.Approvals.{Approval, failed, success, approval_row}
use restaurant_sahayak.Approvals.{
  ApprovalService, approve, reject, expire, approved_by, with_result, is_overdue,
}
use restaurant_sahayak.Approvals.Expiry.{swept, expire-swept}
use restaurant_sahayak.Approvals.Consistency.{ApprovalsConsistent}
use restaurant_sahayak.Approvals.Requests.{Request, run, run-ApprovalsConsistent}
use restaurant_sahayak.Approvals.Terminal.{DecidedAs, HasDecision, decision_is_terminal}
use restaurant_sahayak.Approvals.Outcomes.{
  decisions_refused, approve_contains_failure, approve_executes,
}
use restaurant_sahayak.Tests.{with_approvals, approval_of, gate, gate_keeps}

with_approvals-ApprovalsConsistent : ApprovalsConsistent with_approvals
with_approvals-ApprovalsConsistent = record {
  issued = ground arith;
  distinct = ground arith;
  consistent = ((refl, refl), ((refl, refl, refl), tt));
}

-- The pending approval is granted, then rejected in vain; the other one cannot be decided again.
abbrev requests : List (ℕ × Request)
requests =
    (5, Request.approve_one 40 7)
    ∷ (5, Request.reject_one 40 7 none)
    ∷ (5, Request.approve_one 41 8)
    ∷ (5, Request.expire_all_of 1)
    ∷ []

run-ApprovalsConsistent_example : ApprovalsConsistent (run gate requests with_approvals)
run-ApprovalsConsistent_example =
    run-ApprovalsConsistent gate requests with_approvals (gate_keeps ApprovalsConsistent)
      with_approvals-ApprovalsConsistent

decision_is_terminal_example :
    DecidedAs 41 ApprovalStatus.approved (some 7) (run gate requests with_approvals)
decision_is_terminal_example =
    decision_is_terminal gate 41 ApprovalStatus.approved (some 7) (λ e. ground (arith, e))
      (gate_keeps (HasDecision 41 ApprovalStatus.approved (some 7))) requests with_approvals
      with_approvals-ApprovalsConsistent
      (approval_of 41 ApprovalStatus.approved (some 7) (some 600), refl, refl, refl)

decisions_refused_example :
    (approve gate 41 8 with_approvals
      ≡ (err (tool_error (approval_already_decided 41 ApprovalStatus.approved)), with_approvals))
    × (reject gate 41 8 none with_approvals
        ≡ (err (tool_error (approval_already_decided 41 ApprovalStatus.approved)), with_approvals))
decisions_refused_example = decisions_refused gate 41 8 none with_approvals (λ e. ground (arith, e))

expire-swept_example : expire 1 with_approvals ≡ (ok (40 ∷ []), swept 1 with_approvals)
unfolding is_overdue
expire-swept_example = expire-swept 1 with_approvals with_approvals-ApprovalsConsistent.distinct

abbrev failing : ApprovalService
failing = record {
  executors = λ _. some (λ id. throw (other "TimeoutError"));
  memory_service = none;
  event_bus = none;
}

abbrev working : ApprovalService
working = record { executors = λ _. some (λ id. pure 30); memory_service = none; event_bus = none }

abbrev pending_one : Approval
pending_one = approval_of 40 ApprovalStatus.pending none none

-- The session in which the approval is granted
abbrev granted : Session
granted = record with_approvals {
  approvals = update 40 (approved_by 7 1000) with_approvals.approvals;
}

approve_contains_failure_example : approve failing 40 7 with_approvals ≡ (
  ok 40,
  record (rollback granted granted) {
    approvals = update 40 (with_result (failed (other "TimeoutError")) 1000) granted.approvals;
  },
)
approve_contains_failure_example =
    approve_contains_failure failing (λ id. throw (other "TimeoutError")) 40 7 pending_one
      with_approvals refl refl refl refl refl (other "TimeoutError") granted refl

approve_executes_example : approve working 40 7 with_approvals ≡ (
  ok 40,
  record granted { approvals = update 40 (with_result (success 30) 1000) granted.approvals },
)
approve_executes_example =
    approve_executes working (λ id. pure 30) 40 7 pending_one with_approvals refl refl refl refl
      refl 30 granted refl refl
