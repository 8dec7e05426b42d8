-- ===== src/Approvals/Terminal.antt =====
-- Decisions are terminal: what an approval was decided to be, no later call changes.
use restaurant_sahayak.Base.{
  ℕ, ◌≡◌, ◌≢◌, refl, false, Option, some, List, arith, find, find-map, find-update, find-append,
  ◌==◌, if◌then◌else◌, Bool-cases, inl, inr, ==→eq, sym, ◌∙◌, ap,
}
use restaurant_sahayak.Models.{Session}
use restaurant_sahayak.Models.Enums.{ApprovalStatus, pending}
use restaurant_sahayak.Models.Approvals.{Approval, approval_row}
use restaurant_sahayak.Approvals.{
  ApprovalService, save, Proposal, insert_approval, new_approval, record_result, with_result,
  approved_by, rejected_by, is_overdue, mark_expired,
}
use restaurant_sahayak.Approvals.Expiry.{swept, not_overdue}
use restaurant_sahayak.Approvals.Preserves.{IsLocal, PartnersKeep, Writes}
use restaurant_sahayak.Approvals.Consistency.{
  ApprovalsConsistent, Writes-ApprovalsConsistent, ApprovalsConsistent-local,
}
use restaurant_sahayak.Approvals.Requests.{Request, run, run-invariant}

-- The approval has this status and this decider.
abbrev pub DecidedAs : ℕ → ApprovalStatus → Option ℕ → Session → Type 0
DecidedAs id status user s =
    (a : Approval) × (find id s.approvals ≡ some a)
    × (a.status ≡ status)
    × (a.decided_by_user_id ≡ user)

-- Consistent tables in which this decision was made
abbrev pub HasDecision : ℕ → ApprovalStatus → Option ℕ → Session → Type 0
HasDecision id status user s = ApprovalsConsistent s × DecidedAs id status user s

module _ (id : ℕ) (status : ApprovalStatus) (user : Option ℕ) (closed : status ≢ pending) where
  -- A write to the table that leaves the decision of every decided row
  save-DecidedAs :
      (s : Session) (k : ℕ) (f : Approval → Approval)
      → ((x : Approval) → (f x).id ≡ x.id)
      → ((x : Approval)
          → find k s.approvals ≡ some x
          → x.status ≢ pending
          → ((f x).status ≡ x.status) × ((f x).decided_by_user_id ≡ x.decided_by_user_id))
      → DecidedAs id status user s
      → DecidedAs id status user (save k f s).1
  unfolding save
  save-DecidedAs s k f same kept (a, e, st, us) = elim (Bool-cases (id == k)) [
    | inl hit ↦
        let found : find k s.approvals ≡ some a = rw (← ==→eq id k hit) e in
        let same_decision = kept a found (λ p. closed (sym st ∙ p)) in
        (
          f a,
          rw (find-update k id f s.approvals same) (rw (hit, e) refl),
          same_decision.0 ∙ st,
          same_decision.1 ∙ us,
        )
    | inr miss ↦ (a, rw (find-update k id f s.approvals same) (rw miss e), st, us)
  ]

  swept-DecidedAs :
      (s : Session) (restaurant_id : ℕ)
      → DecidedAs id status user s
      → DecidedAs id status user (swept restaurant_id s)
  swept-DecidedAs s restaurant_id (a, e, st, us) =
      let late = is_overdue restaurant_id s.now a in
      let kept : late ≡ false = not_overdue restaurant_id s.now a (λ p. closed (sym st ∙ p)) in
      (
        a,
        rw
            (
              find-map id (λ a. if is_overdue restaurant_id s.now a then mark_expired a else a)
                  s.approvals (λ x. ground arith),
              e,
            )
            (ap some (rw kept refl)),
        st,
        us,
      )

  HasDecision-local : IsLocal (HasDecision id status user)
  HasDecision-local = record {
    events = λ s es n le h. (ApprovalsConsistent-local.events s es n le h.0, h.1);
    memories = λ s ms n le h. (ApprovalsConsistent-local.memories s ms n le h.0, h.1);
    clock = λ s t n le h. (ApprovalsConsistent-local.clock s t n le h.0, h.1);
  }

  -- No pending approval is the decided one.
  clash :
      {a : Approval} (s : Session) (k : ℕ) (x : Approval)
      → find k s.approvals ≡ some a
      → a.status ≡ pending
      → find k s.approvals ≡ some x
      → x.status ≢ pending
      → ⊥
  clash s k x e pend found open_x = open_x (cc)

  HasDecision-Writes : Writes (HasDecision id status user)
  unfolding record_result
  HasDecision-Writes = record {
    inserts = λ p. record {
      at = λ s h. ((Writes-ApprovalsConsistent.inserts p).at s h.0, inserted s p h.1);
    };
    decides = record {
      approves = λ s k u a e pend h. (
        Writes-ApprovalsConsistent.decides.approves s k u a e pend h.0,
        save-DecidedAs s k (approved_by u s.now) (λ x. refl)
            (λ x found open_x. absurd (clash s k x e pend found open_x)) h.1,
      );
      rejects = λ s k u a e pend h. (
        Writes-ApprovalsConsistent.decides.rejects s k u a e pend h.0,
        save-DecidedAs s k (rejected_by u s.now) (λ x. refl)
            (λ x found open_x. absurd (clash s k x e pend found open_x)) h.1,
      );
      records = λ k result. record {
        at = λ s h. (
          (Writes-ApprovalsConsistent.decides.records k result).at s h.0,
          save-DecidedAs s k (with_result result s.now) (λ x. refl) (λ x _ _. (refl, refl)) h.1,
        );
      };
    };
    distinct = λ s h. h.0.distinct;
    sweeps = λ s r h. (Writes-ApprovalsConsistent.sweeps s r h.0, swept-DecidedAs s r h.1);
  }
    where
      inserted :
          (s : Session) (p : Proposal)
          → DecidedAs id status user s
          → DecidedAs id status user (insert_approval p s).1
      inserted s p (a, e, st, us) =
          (a, unfold insert_approval in find-append id s.approvals (new_approval p s) a e, st, us)

-- Once an approval is approved, rejected or expired, its status and its decider stay the same
-- through every later sequence of proposals, decisions and sweeps, if the executors and the
-- handlers leave them alone.
pub decision_is_terminal :
    (service : ApprovalService) (id : ℕ) (status : ApprovalStatus) (user : Option ℕ)
    → status ≢ pending
    → PartnersKeep (HasDecision id status user) service
    → (requests : List (ℕ × Request)) (s : Session) → ApprovalsConsistent s
    → DecidedAs id status user s
    → DecidedAs id status user (run service requests s)
decision_is_terminal service id status user closed partners requests s c d =
    (run-invariant service (HasDecision id status user) (HasDecision-local id status user closed)
      partners (HasDecision-Writes id status user closed) requests s (c, d)).1
