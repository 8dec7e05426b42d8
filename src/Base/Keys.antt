-- ===== src/Base/Keys.antt =====
-- Tables whose rows have distinct identities that were handed out: insertions and updates.
use Prim.Native.Nat.{ℕ, ◌≤◌, ◌<◌}
use mathlib.Core.Path.{◌≡◌, refl, subst, sym}
use mathlib.Core.Logic.{◌≢◌, inl, inr}
use mathlib.Core.List.{List, [], ◌∷◌, ◌++◌}
use mathlib.Core.Option.{some}
use native.Mathlib.Omega.{arith}
use restaurant_sahayak.Base.Tests.{◌==◌, if◌then◌else◌, Bool-cases, ==→eq, eq→==}
use restaurant_sahayak.Base.Lists.{All, Pairwise, All-map, Pairwise-snoc}
use restaurant_sahayak.Base.Rows.{
  HasId, row_id, find, update, Distinct, Issued, All-update, All-find,
}

module _ {A : Type 0} ⦃i : HasId A⦄ where
  pub Issued-mono : (n m : ℕ) (xs : List A) → n ≤ m → Issued n xs → Issued m xs
  Issued-mono n m [] h k = tt
  Issued-mono n m (x ∷ xs) h k = (omega arith, Issued-mono n m xs h k.1)

  pub Issued-update :
      (n k : ℕ) (f : A → A) (xs : List A)
      → ((x : A) → row_id (f x) ≡ row_id x)
      → Issued n xs
      → Issued n (update k f xs)
  Issued-update n k f xs same h =
      All-update (λ x. row_id x < n) k f xs h (λ x _ l. ground (arith, same x))

  All-ne-update :
      (j k : ℕ) (f : A → A) (xs : List A)
      → ((x : A) → row_id (f x) ≡ row_id x)
      → All (λ y. j ≢ row_id y) xs
      → All (λ y. j ≢ row_id y) (update k f xs)
  All-ne-update j k f xs same h =
      All-update (λ y. j ≢ row_id y) k f xs h (λ x _ l. ground (arith, same x))

  pub Distinct-update :
      (k : ℕ) (f : A → A) (xs : List A)
      → ((x : A) → row_id (f x) ≡ row_id x)
      → Distinct xs
      → Distinct (update k f xs)
  Distinct-update k f [] same h = tt
  Distinct-update k f (x ∷ xs) same h =
      let head : row_id (if row_id x == k then f x else x) ≡ row_id x = ground (arith, same x) in
      (rw head (All-ne-update (row_id x) k f xs same h.0), Distinct-update k f xs same h.1)

  pub Distinct-snoc :
      (n : ℕ) (xs : List A) (a : A)
      → row_id a ≡ n
      → Issued n xs
      → Distinct xs
      → Distinct (xs ++ a ∷ [])
  Distinct-snoc n xs a e h d =
      Pairwise-snoc (λ x y. row_id x ≢ row_id y) xs a d
        (All-map (λ x. row_id x < n) (λ x. row_id x ≢ row_id a) (λ x l. omega arith) xs h)

  pub not-mem-update :
      (k : ℕ) (f : A → A) (xs : List A) → All (λ y. k ≢ row_id y) xs → update k f xs ≡ xs
  not-mem-update k f [] h = refl
  not-mem-update k f (x ∷ xs) h = ground (arith, not-mem-update k f xs h.1)

  -- A property of every row is kept by an update, if it holds of what the found row becomes.
  pub All-update_found {κ} :
      (P : A → Type κ) (k : ℕ) (f : A → A) (xs : List A) (a : A)
      → Distinct xs
      → find k xs ≡ some a
      → P (f a)
      → All P xs
      → All P (update k f xs)
  All-update_found P k f [] a d e p h = tt
  All-update_found P k f (x ∷ xs) a d e p h = elim (Bool-cases (row_id x == k)) [
    | inl here ↦
        let same : x ≡ a = cc (rw here at e) in
        let id_eq : row_id x ≡ k = ==→eq (row_id x) k here in
        let rest : update k f xs ≡ xs = not-mem-update k f xs (rw (← id_eq) d.0) in
        rw here (rw rest (rw same p, h.1))
    | inr later ↦ rw later (h.0, All-update_found P k f xs a d.1 (rw later at e) p h.1)
  ]

-- What is related to every row of another identity is related to all, where none has that one.
related :
    {A : Type 0} ⦃i : HasId A⦄ (R : A → A → Type 0) (flip : (x y : A) → R x y → R y x) (k : ℕ)
    (xs : List A) (b : A)
    → All (λ y. k ≢ row_id y) xs
    → All (λ y. row_id y ≢ k → R y b) xs
    → All (R b) xs
related R flip k [] b d n = tt
related R flip k (y ∷ ys) b d n = (flip y b (n.0 (λ q. d.0 (sym q))), related R flip k ys b d.1 n.1)

module _ {A : Type 0} ⦃i : HasId A⦄ (R : A → A → Type 0) (flip : (x y : A) → R x y → R y x) where
  -- A row is related to every other row.
  pub Pairwise-find :
      (k : ℕ) (xs : List A) (a : A)
      → Pairwise R xs
      → find k xs ≡ some a
      → All (λ x. row_id x ≢ k → R x a) xs
  Pairwise-find k [] a h e = tt
  Pairwise-find k (x ∷ xs) a h e = elim (Bool-cases (row_id x == k)) [
    | inl here ↦
        let same : x ≡ a = cc (rw here at e) in
        (
          λ ne. absurd (ne (==→eq (row_id x) k here)),
          All-map (R x) (λ y. row_id y ≢ k → R y a) (λ y r _. subst (R y) same (flip x y r)) xs h.0,
        )
    | inr later ↦
        let found : find k xs ≡ some a = rw later at e in
        (λ _. All-find (R x) k xs a h.0 found, Pairwise-find k xs a h.1 found)
  ]

  -- Updating the found row keeps the table related, if what it becomes is related to every other.
  pub Pairwise-update :
      (k : ℕ) (f : A → A) (xs : List A) (a : A)
      → Distinct xs
      → find k xs ≡ some a
      → All (λ x. row_id x ≢ k → R x (f a)) xs
      → Pairwise R xs
      → Pairwise R (update k f xs)
  Pairwise-update k f [] a d e n h = tt
  Pairwise-update k f (x ∷ xs) a d e n h = elim (Bool-cases (row_id x == k)) [
    | inl here ↦
        let same : x ≡ a = cc (rw here at e) in
        let id_eq : row_id x ≡ k = ==→eq (row_id x) k here in
        let rest : update k f xs ≡ xs = not-mem-update k f xs (rw (← id_eq) d.0) in
        let others : All (R (f a)) xs = related R flip k xs (f a) (rw (← id_eq) d.0) n.1 in
        rw here (rw rest (rw same (others, h.1)))
    | inr later ↦
        let found : find k xs ≡ some a = rw later at e in
        rw later (
          All-update_found (R x) k f xs a d.1 found (n.0 (λ q. cc (eq→== (row_id x) k q))) h.0,
          Pairwise-update k f xs a d.1 found n.1 h.1,
        )
  ]
