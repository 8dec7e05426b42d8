-- ===== src/Approvals/Consistency.antt =====
-- The CHECK constraint `ck_approvals_decision_consistency` of app/models/approval.py, as an
-- invariant that the operations of the service keep: none of their flushes can violate it.
use mathlib.Core.Path.{subst}
use restaurant_sahayak.Base.{
  ℕ, ◌+◌, ◌<◌, ◌≤◌, ◌≡◌, refl, true, false, Option, some, is_some, [], ◌∷◌, arith, All, All-append,
  All-find, All-update_found, All-update, Distinct, Distinct-update, Distinct-snoc, Issued,
  Issued-mono, Issued-update, find,
}
use restaurant_sahayak.Approvals.Expiry.{All-map-sweep, Distinct-sweep}
use restaurant_sahayak.Models.{Session}
use restaurant_sahayak.Models.Enums.{ApprovalStatus, pending, approved, rejected, expired}
use restaurant_sahayak.Models.Approvals.{Approval, approval_row}
use restaurant_sahayak.Approvals.{
  save, insert_approval, new_approval, record_result, with_result, approved_by, rejected_by,
}
use restaurant_sahayak.Approvals.Preserves.{IsLocal, Writes}

-- The constraint, by the status: of `approved_at`, `rejected_at` and `decided_by_user_id`
abbrev pub ConsistentAs : ApprovalStatus → Option ℕ → Option ℕ → Option ℕ → Type 0
ConsistentAs approved yes_at no_at user =
    (is_some yes_at ≡ true) × (is_some user ≡ true) × (is_some no_at ≡ false)
ConsistentAs rejected yes_at no_at user =
    (is_some no_at ≡ true) × (is_some user ≡ true) × (is_some yes_at ≡ false)
ConsistentAs pending yes_at no_at user = (is_some yes_at ≡ false) × (is_some no_at ≡ false)
ConsistentAs expired yes_at no_at user = (is_some yes_at ≡ false) × (is_some no_at ≡ false)

abbrev pub IsConsistent : Approval → Type 0
IsConsistent a = ConsistentAs a.status a.approved_at a.rejected_at a.decided_by_user_id

pub record ApprovalsConsistent (s : Session) : Type 0 where
  pub issued : Issued s.next_id s.approvals
  pub distinct : Distinct s.approvals
  pub consistent : All IsConsistent s.approvals

IsConsistent-pending :
    (a : Approval)
    → a.status ≡ pending
    → IsConsistent a
    → (is_some a.approved_at ≡ false) × (is_some a.rejected_at ≡ false)
IsConsistent-pending a e h = rw e at h

found_pending :
    (s : Session) (id : ℕ) (a : Approval)
    → find id s.approvals ≡ some a
    → a.status ≡ pending
    → ApprovalsConsistent s
    → (is_some a.approved_at ≡ false) × (is_some a.rejected_at ≡ false)
found_pending s id a e pend h =
    IsConsistent-pending a pend (All-find IsConsistent id s.approvals a h.consistent e)

-- A write to the found row that keeps its identity and leaves it consistent
save_found :
    (s : Session) (id : ℕ) (f : Approval → Approval) (a : Approval)
    → ((x : Approval) → (f x).id ≡ x.id)
    → find id s.approvals ≡ some a
    → IsConsistent (f a)
    → ApprovalsConsistent s
    → ApprovalsConsistent (save id f s).1
unfolding save
save_found s id f a same e ok h = record {
  issued = Issued-update s.next_id id f s.approvals same h.issued;
  distinct = Distinct-update id f s.approvals same h.distinct;
  consistent = All-update_found IsConsistent id f s.approvals a h.distinct e ok h.consistent;
}

pub Writes-ApprovalsConsistent : Writes ApprovalsConsistent
unfolding insert_approval record_result save
Writes-ApprovalsConsistent = record {
  inserts = λ p. record {
    at = λ s h. record {
      issued =
          All-append (λ a. a.id < s.next_id + 1) s.approvals (new_approval p s ∷ [])
            (Issued-mono s.next_id (s.next_id + 1) s.approvals (omega arith) h.issued)
            (omega arith, tt);
      distinct = Distinct-snoc s.next_id s.approvals (new_approval p s) refl h.issued h.distinct;
      consistent =
          All-append IsConsistent s.approvals (new_approval p s ∷ []) h.consistent
            ((refl, refl), tt);
    };
  };
  decides = record {
    approves = λ s id user a e pend h.
        save_found s id (approved_by user s.now) a (λ x. refl) e
          (refl, refl, (found_pending s id a e pend h).1) h;
    rejects = λ s id user a e pend h.
        save_found s id (rejected_by user s.now) a (λ x. refl) e
          (refl, refl, (found_pending s id a e pend h).0) h;
    records = λ id result. record {
      at = λ s h. record {
        issued =
            Issued-update s.next_id id (with_result result s.now) s.approvals (λ x. refl) h.issued;
        distinct = Distinct-update id (with_result result s.now) s.approvals (λ x. refl) h.distinct;
        consistent =
            All-update IsConsistent id (with_result result s.now) s.approvals h.consistent
              (λ x _ k. k);
      };
    };
  };
  distinct = λ s h. h.distinct;
  sweeps = λ s restaurant_id h. record {
    issued =
        All-map-sweep (λ a. a.id < s.next_id) restaurant_id s.now s.approvals h.issued (λ a _ k. k);
    distinct = Distinct-sweep restaurant_id s.now s.approvals h.distinct;
    consistent =
        All-map-sweep IsConsistent restaurant_id s.now s.approvals h.consistent
          (λ a e k. IsConsistent-pending a e k);
  };
}

grown :
    (s t : Session)
    → s.next_id ≤ t.next_id
    → s.approvals ≡ t.approvals
    → ApprovalsConsistent s
    → ApprovalsConsistent t
grown s t le e h = record {
  issued = subst (Issued t.next_id) e (Issued-mono s.next_id t.next_id s.approvals le h.issued);
  distinct = subst Distinct e h.distinct;
  consistent = subst (All IsConsistent) e h.consistent;
}

pub ApprovalsConsistent-local : IsLocal ApprovalsConsistent
ApprovalsConsistent-local = record {
  events = λ s es n le h. grown s _ le refl h;
  memories = λ s ms n le h. grown s _ le refl h;
  clock = λ s t n le h. grown s _ le refl h;
}
