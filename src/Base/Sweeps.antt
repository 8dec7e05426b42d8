-- ===== src/Base/Sweeps.antt =====
-- Updating the rows that a query selected, one after the other.
use Prim.Native.Nat.{ℕ}
use mathlib.Core.Path.{◌≡◌, refl, ap, ◌∙◌}
use mathlib.Core.Logic.{◌≢◌, inl, inr}
use mathlib.Core.Bool.{Bool, true, false}
use mathlib.Core.List.{List, [], ◌∷◌, map}
use mathlib.Core.Option
use mathlib.Core.Option.{Option, none, some}
use native.Mathlib.Omega.{arith}
use restaurant_sahayak.Base.Tests.{◌==◌, if◌then◌else◌, Bool-cases}
use restaurant_sahayak.Base.Lists.{All, select, All-select}
use restaurant_sahayak.Base.Rows.{HasId, row_id, find, update, Distinct, find-update}
use restaurant_sahayak.Base.Keys.{not-mem-update}

module _ {A : Type 0} ⦃i : HasId A⦄ (f : A → A) where
  -- One update after the other, at the identities of the given rows.
  abbrev pub update_each : List A → List A → List A
  update_each [] xs = xs
  update_each (y ∷ ys) xs = update_each ys (update (row_id y) f xs)

  update_each-other :
      (x : A) (ys xs : List A)
      → All (λ y. row_id x ≢ row_id y) ys
      → update_each ys (x ∷ xs) ≡ x ∷ update_each ys xs
  update_each-other x [] xs h = refl
  update_each-other x (y ∷ ys) xs h =
      let other : (row_id x == row_id y) ≡ false = ground (arith, h.0) in
      rw other (update_each-other x ys (update (row_id y) f xs) h.1)

  -- Updating every row that `p` selects is one pass over the table.
  pub update_each-select :
      (p : A → Bool) (xs : List A)
      → ((x : A) → row_id (f x) ≡ row_id x)
      → Distinct xs
      → update_each (select p xs) xs ≡ map (λ x. if p x then f x else x) xs
  update_each-select p [] same d = refl
  update_each-select p (x ∷ xs) same d = elim (Bool-cases (p x)) [
    | inl yes_p ↦
        let self : (row_id x == row_id x) ≡ true = ground arith in
        let head : update (row_id x) f (x ∷ xs) ≡ f x ∷ xs =
          rw (self, not-mem-update (row_id x) f xs d.0) refl in
        rw yes_p (
          ap (update_each (select p xs)) head
          ∙ update_each-other (f x) (select p xs) xs
              (rw (same x) (All-select (λ y. row_id x ≢ row_id y) p xs d.0))
          ∙ ap (λ r. f x ∷ r) (update_each-select p xs same d.1))
    | inr no_p ↦ rw no_p (
        update_each-other x (select p xs) xs (All-select (λ y. row_id x ≢ row_id y) p xs d.0)
        ∙ ap (λ r. x ∷ r) (update_each-select p xs same d.1))
  ]

module _ {A : Type 0} ⦃i : HasId A⦄ where
  pub find-map :
      (k : ℕ) (f : A → A) (xs : List A)
      → ((x : A) → row_id (f x) ≡ row_id x)
      → find k (map f xs) ≡ Option.map f (find k xs)
  find-map k f [] h = ground arith
  find-map k f (x ∷ xs) h = ground (arith, h x, find-map k f xs h)

  pub find-update_self :
      (k : ℕ) (f : A → A) (xs : List A) (a : A)
      → ((x : A) → row_id (f x) ≡ row_id x)
      → find k xs ≡ some a
      → find k (update k f xs) ≡ some (f a)
  find-update_self k f xs a h e =
      let same_id : (k == k) ≡ true = ground arith in
      rw (find-update k k f xs h) (rw (same_id, e) refl)
