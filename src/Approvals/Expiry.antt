-- ===== src/Approvals/Expiry.antt =====
-- `expire`: which approvals it expires, and that the loop over the overdue rows is one pass.
use restaurant_sahayak.Base.{
  ℕ, ◌≡◌, ◌≢◌, refl, All, Bool-cases, inl, inr, arith, true, false, List, [], ◌∷◌, map, select,
  update, update_each, update_each-select, Distinct, if◌then◌else◌,
}
use restaurant_sahayak.Errors.{ok}
use restaurant_sahayak.Models.{Session}
use restaurant_sahayak.Models.Enums.{ApprovalStatus, pending, is_pending}
use restaurant_sahayak.Models.Approvals.{Approval, approval_row}
use restaurant_sahayak.Approvals.{is_overdue, mark_expired, save, expire_all, expire}

-- The table after the sweep
abbrev pub swept : ℕ → Session → Session
swept restaurant_id s = record s {
  approvals = map (λ a. if is_overdue restaurant_id s.now a then mark_expired a else a) s.approvals;
}

expire_all-update_each :
    (rows : List Approval) (s : Session)
    → expire_all rows s
      ≡ (ok tt, record s { approvals = update_each mark_expired rows s.approvals })
unfolding expire_all save
expire_all-update_each [] s = refl
expire_all-update_each (a ∷ rest) s =
    expire_all-update_each rest (record s { approvals = update a.id mark_expired s.approvals })

-- In a table without duplicate identities the sweep of a restaurant marks exactly its overdue
-- approvals (pending, with a deadline before now), leaves every other row and table as it was,
-- and returns the identities of those that it marked.
pub expire-swept :
    (restaurant_id : ℕ) (s : Session)
    → Distinct s.approvals
    → expire restaurant_id s ≡ (
      ok (map (λ a. a.id) (select (is_overdue restaurant_id s.now) s.approvals)),
      swept restaurant_id s,
    )
unfolding expire
expire-swept restaurant_id s d =
    rw
      (
        expire_all-update_each (select (is_overdue restaurant_id s.now) s.approvals) s,
        update_each-select mark_expired (is_overdue restaurant_id s.now) s.approvals (λ x. refl) d,
      )
      refl

is_overdue-pending :
    (restaurant_id now : ℕ) (a : Approval)
    → is_overdue restaurant_id now a ≡ true
    → a.status ≡ pending
unfolding is_overdue
is_overdue-pending restaurant_id now a h = pending_of a.status (ground arith)
  where
    pending_of : (st : ApprovalStatus) → is_pending st ≡ true → st ≡ pending
    pending_of st e = ground arith

pub not_overdue :
    (restaurant_id now : ℕ) (a : Approval)
    → a.status ≢ pending
    → is_overdue restaurant_id now a ≡ false
not_overdue restaurant_id now a open_a = elim (Bool-cases (is_overdue restaurant_id now a)) [
  | inl late ↦ absurd (open_a (is_overdue-pending restaurant_id now a late))
  | inr kept ↦ kept
]

pub All-map-sweep :
    (P : Approval → Type 0) (restaurant_id now : ℕ) (rows : List Approval)
    → All P rows
    → ((a : Approval) → a.status ≡ pending → P a → P (mark_expired a))
    → All P (map (λ a. if is_overdue restaurant_id now a then mark_expired a else a) rows)
All-map-sweep P restaurant_id now [] h f = tt
All-map-sweep P restaurant_id now (a ∷ rows) h f = (
  elim (Bool-cases (is_overdue restaurant_id now a)) [
    | inl late ↦ rw late (f a (is_overdue-pending restaurant_id now a late) h.0)
    | inr kept ↦ rw kept h.0
  ],
  All-map-sweep P restaurant_id now rows h.1 f,
)

All-ne-sweep :
    (id restaurant_id now : ℕ) (rows : List Approval)
    → All (λ a. id ≢ a.id) rows
    → All
        (λ a. id ≢ a.id)
        (map (λ a. if is_overdue restaurant_id now a then mark_expired a else a) rows)
All-ne-sweep id restaurant_id now rows h =
    All-map-sweep (λ a. id ≢ a.id) restaurant_id now rows h (λ a _ k. k)

pub Distinct-sweep :
    (restaurant_id now : ℕ) (rows : List Approval)
    → Distinct rows
    → Distinct (map (λ a. if is_overdue restaurant_id now a then mark_expired a else a) rows)
Distinct-sweep restaurant_id now [] d = tt
Distinct-sweep restaurant_id now (a ∷ rows) d =
    let head : (if is_overdue restaurant_id now a then mark_expired a else a).id ≡ a.id =
      ground arith in
    (
      rw head (All-ne-sweep a.id restaurant_id now rows d.0),
      Distinct-sweep restaurant_id now rows d.1,
    )
