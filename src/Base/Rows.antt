-- ===== src/Base/Rows.antt =====
-- A database table as the list of its rows, each with an identity (the ORM's primary key).
use Prim.Native.Nat.{ℕ, ◌<◌}
use mathlib.Core.Path.{◌≡◌, refl, sym, subst}
use mathlib.Core.Logic.{◌≢◌, inl, inr}
use mathlib.Core.Bool.{Bool}
use mathlib.Core.List.{List, [], ◌∷◌, ◌++◌}
use mathlib.Core.Option
use mathlib.Core.Option.{Option, none, some}
use native.Mathlib.Omega.{arith}
use restaurant_sahayak.Base.Tests.{◌==◌, if◌then◌else◌, Bool-cases}
use restaurant_sahayak.Base.Lists.{All, Pairwise, select}

-- `uuid_pk()`: the primary key of a mapped class.
pub record HasId (A : Type 0) : Type 0 where
  pub id_of : A → ℕ

abbrev pub row_id : {A : Type 0} ⦃i : HasId A⦄ → A → ℕ
row_id ⦃i⦄ = i.id_of

module _ {A : Type 0} ⦃i : HasId A⦄ where
  -- No two rows have one identity.
  abbrev pub Distinct : List A → Type 0
  Distinct = Pairwise (λ x y. row_id x ≢ row_id y)

  -- Every identity has been handed out.
  abbrev pub Issued : ℕ → List A → Type 0
  Issued n = All (λ x. row_id x < n)

  -- `session.get(Model, id)`
  abbrev pub find : ℕ → List A → Option A
  find k [] = none
  find k (x ∷ xs) = if row_id x == k then some x else find k xs

  -- Writing attributes of the row with this identity (identities are unique).
  abbrev pub update : ℕ → (A → A) → List A → List A
  update k f [] = []
  update k f (x ∷ xs) = (if row_id x == k then f x else x) ∷ update k f xs

  -- `session.delete(row)`
  abbrev pub remove : ℕ → List A → List A
  remove k [] = []
  remove k (x ∷ xs) = let rest = remove k xs in if row_id x == k then rest else x ∷ rest

  pub find-id : (k : ℕ) (xs : List A) (x : A) → find k xs ≡ some x → row_id x ≡ k
  find-id k [] x h = ground arith
  find-id k (y ∷ xs) x h = ground (arith, find-id k xs x)

  -- A found row is found under its own identity.
  pub find_self : (k : ℕ) (xs : List A) (x : A) → find k xs ≡ some x → find (row_id x) xs ≡ some x
  find_self k xs x h = subst (λ j. find j xs ≡ some x) (sym (find-id k xs x h)) h

  -- An update that keeps identities changes what is found under that identity only.
  pub find-update :
      (k j : ℕ) (f : A → A) (xs : List A)
      → ((x : A) → row_id (f x) ≡ row_id x)
      → find j (update k f xs) ≡ (if j == k then Option.map f (find j xs) else find j xs)
  find-update k j f [] h = ground arith
  find-update k j f (x ∷ xs) h = ground (arith, h x, find-update k j f xs h)

  pub find-append :
      (k : ℕ) (xs : List A) (a x : A) → find k xs ≡ some x → find k (xs ++ a ∷ []) ≡ some x
  find-append k [] a x h = ground arith
  find-append k (y ∷ xs) a x h = ground (arith, find-append k xs a x)

  -- The row that is appended is found, or one that has its identity before it.
  pub find_new :
      (k : ℕ) (xs : List A) (a : A) → row_id a ≡ k → (r : A) × (find k (xs ++ a ∷ []) ≡ some r)
  find_new k [] a e = (a, ground (arith, e))
  find_new k (x ∷ xs) a e = elim (Bool-cases (row_id x == k)) [
    | inl here ↦ (x, rw here refl)
    | inr later ↦ rw later (find_new k xs a e)
  ]

  pub All-update {κ} :
      (P : A → Type κ) (k : ℕ) (f : A → A) (xs : List A)
      → All P xs
      → ((x : A) → row_id x ≡ k → P x → P (f x))
      → All P (update k f xs)
  All-update P k f [] h g = tt
  All-update P k f (x ∷ xs) h g = ground (arith, g x, All-update P k f xs h.1 g)

  pub All-find {κ} :
      (P : A → Type κ) (k : ℕ) (xs : List A) (x : A) → All P xs → find k xs ≡ some x → P x
  All-find P k [] x h e = ground arith
  All-find P k (y ∷ xs) x h e = ground (arith, All-find P k xs x h.1)

  -- An update that no test of `p` sees commutes with the selection by `p`.
  pub select-update :
      (p : A → Bool) (k : ℕ) (f : A → A) (xs : List A)
      → ((x : A) → p (f x) ≡ p x)
      → select p (update k f xs) ≡ update k f (select p xs)
  select-update p k f [] h = refl
  select-update p k f (x ∷ xs) h = ground (arith, h x, select-update p k f xs h)

  -- Of rows with issued identities, the row that is appended under the next is found.
  pub find-Issued :
      (k : ℕ) (xs : List A) (a : A) → row_id a ≡ k → Issued k xs → find k (xs ++ a ∷ []) ≡ some a
  find-Issued k [] a e h = ground (arith, e)
  find-Issued k (x ∷ xs) a e h = ground (arith, find-Issued k xs a e h.1)

  pub All-remove {κ} : (P : A → Type κ) (k : ℕ) (xs : List A) → All P xs → All P (remove k xs)
  All-remove P k [] h = tt
  All-remove P k (x ∷ xs) h = ground (arith, All-remove P k xs h.1)
