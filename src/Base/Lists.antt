-- ===== src/Base/Lists.antt =====
-- Lists measured by native numbers, and predicates on them by recursion.
use Prim.Native.Nat.{ℕ, zero, suc}
use mathlib.Core.Path.{◌≡◌, refl}
use mathlib.Core.Bool.{Bool, true, false, ◌||◌}
use mathlib.Core.List.{List, [], ◌∷◌, ◌++◌}
use mathlib.Core.Option.{Option, none, some}
use native.Mathlib.Omega.{arith}
use restaurant_sahayak.Base.Tests.{if◌then◌else◌}

abbrev pub All {ℓ κ} : {A : Type ℓ} → (A → Type κ) → List A → Type κ
All P [] = Unit
All P (x ∷ xs) = P x × All P xs

-- Every two members, in the order of the list, are related.
abbrev pub Pairwise {ℓ κ} : {A : Type ℓ} → (A → A → Type κ) → List A → Type (ℓ ⊔ κ)
Pairwise R [] = Unit
Pairwise R (x ∷ xs) = All (R x) xs × Pairwise R xs

module _ {ℓ} {A : Type ℓ} where
  abbrev pub length : List A → ℕ
  length [] = 0
  length (_ ∷ xs) = suc (length xs)

  abbrev pub any : (A → Bool) → List A → Bool
  any p [] = false
  any p (x ∷ xs) = p x || any p xs

  -- `[x for x in xs if p(x)]`, and a WHERE clause.
  abbrev pub select : (A → Bool) → List A → List A
  select p [] = []
  select p (x ∷ xs) = let rest = select p xs in if p x then x ∷ rest else rest

  abbrev pub take : ℕ → List A → List A
  take zero xs = []
  take (suc n) [] = []
  take (suc n) (x ∷ xs) = x ∷ take n xs

  abbrev pub head? : List A → Option A
  head? [] = none
  head? (x ∷ _) = some x

module _ {ℓ κ} {A : Type ℓ} where
  pub All-map : (P Q : A → Type κ) → ((a : A) → P a → Q a) → (xs : List A) → All P xs → All Q xs
  All-map P Q f [] h = tt
  All-map P Q f (x ∷ xs) h = (f x h.0, All-map P Q f xs h.1)

  pub All-append : (P : A → Type κ) (xs ys : List A) → All P xs → All P ys → All P (xs ++ ys)
  All-append P [] ys hx hy = hy
  All-append P (x ∷ xs) ys hx hy = (hx.0, All-append P xs ys hx.1 hy)

  pub All-select : (P : A → Type κ) (p : A → Bool) (xs : List A) → All P xs → All P (select p xs)
  All-select P p [] h = tt
  All-select P p (x ∷ xs) h = ground (arith, All-select P p xs h.1)

  pub select-All :
      (P : A → Type κ) (p : A → Bool) (xs : List A)
      → ((a : A) → p a ≡ true → P a)
      → All P (select p xs)
  select-All P p [] h = tt
  select-All P p (x ∷ xs) h = ground (arith, h x, select-All P p xs h)

module _ {ℓ κ} {A : Type ℓ} where
  pub Pairwise-snoc :
      (R : A → A → Type κ) (xs : List A) (a : A)
      → Pairwise R xs
      → All (λ x. R x a) xs
      → Pairwise R (xs ++ a ∷ [])
  Pairwise-snoc R [] a h k = (tt, tt)
  Pairwise-snoc R (x ∷ xs) a h k =
      (All-append (R x) xs (a ∷ []) h.0 (k.0, tt), Pairwise-snoc R xs a h.1 k.1)

  pub any-false :
      (p : A → Bool) (P : A → Type κ) (xs : List A)
      → ((a : A) → p a ≡ false → P a)
      → any p xs ≡ false
      → All P xs
  any-false p P [] f h = tt
  any-false p P (x ∷ xs) f h = ground (arith, f x, any-false p P xs f)

module _ {ℓ} {A : Type ℓ} where
  pub select-append :
      (p : A → Bool) (xs ys : List A) → select p (xs ++ ys) ≡ select p xs ++ select p ys
  select-append p [] ys = refl
  select-append p (x ∷ xs) ys = ground (arith, select-append p xs ys)

  pub any-select : (p : A → Bool) (xs : List A) → select p xs ≡ [] → any p xs ≡ false
  any-select p [] h = refl
  any-select p (x ∷ xs) h = ground (arith, any-select p xs)

  pub select-any : (p : A → Bool) (xs : List A) → any p xs ≡ false → select p xs ≡ []
  select-any p [] h = refl
  select-any p (x ∷ xs) h = ground (arith, select-any p xs)
