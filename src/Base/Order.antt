-- ===== src/Base/Order.antt =====
-- ORDER BY: a stable insertion sort.
use mathlib.Core.Path.{◌≡◌}
use mathlib.Core.Bool.{Bool, true, false}
use mathlib.Core.List.{List, [], ◌∷◌, Perm}
use mathlib.Core.List.Perm
use mathlib.Core.Logic.{inl, inr}
use native.Mathlib.Omega.{arith}
use restaurant_sahayak.Base.Tests.{if◌then◌else◌, Bool-cases}
use restaurant_sahayak.Base.Lists.{All, All-map, Pairwise}

module _ {A : Type 0} where
  abbrev pub insert_by : (A → A → Bool) → A → List A → List A
  insert_by before x [] = x ∷ []
  insert_by before x (y ∷ ys) =
      let rest = insert_by before x ys in if before x y then x ∷ y ∷ ys else y ∷ rest

  -- The rows in an order in which a row comes at the first place where it may stand before the next.
  abbrev pub order_by : (A → A → Bool) → List A → List A
  order_by before [] = []
  order_by before (x ∷ xs) = insert_by before x (order_by before xs)

  insert_by-Perm :
      (before : A → A → Bool) (x : A) (xs : List A) → Perm (insert_by before x xs) (x ∷ xs)
  insert_by-Perm before x [] = Perm.refl (x ∷ [])
  insert_by-Perm before x (y ∷ ys) = elim (Bool-cases (before x y)) [
    | inl here ↦ rw here (Perm.refl (x ∷ y ∷ ys))
    | inr later ↦
        rw later (Perm.trans (Perm.cons y (insert_by-Perm before x ys)) (Perm.swap x y ys))
  ]

  -- The order loses and adds no row.
  pub order_by-Perm : (before : A → A → Bool) (xs : List A) → Perm (order_by before xs) xs
  order_by-Perm before [] = Perm.refl []
  order_by-Perm before (x ∷ xs) =
      Perm.trans (insert_by-Perm before x (order_by before xs))
        (Perm.cons x (order_by-Perm before xs))

  All-insert_by :
      (P : A → Type 0) (before : A → A → Bool) (x : A) (xs : List A)
      → P x
      → All P xs
      → All P (insert_by before x xs)
  All-insert_by P before x [] p h = (p, tt)
  All-insert_by P before x (y ∷ ys) p h = ground (arith, All-insert_by P before x ys p h.1)

  module _ (R : A → A → Type 0) (before : A → A → Bool)
      (holds : (x y : A) → before x y ≡ true → R x y)
      (flips : (x y : A) → before x y ≡ false → R y x)
      (trans : (x y z : A) → R x y → R y z → R x z) where
    insert_by-Pairwise : (x : A) (xs : List A) → Pairwise R xs → Pairwise R (insert_by before x xs)
    insert_by-Pairwise x [] h = (tt, tt)
    insert_by-Pairwise x (y ∷ ys) h = elim (Bool-cases (before x y)) [
      | inl here ↦
          rw here (
            (holds x y here, All-map (R y) (R x) (λ z r. trans x y z (holds x y here) r) ys h.0),
            h,
          )
      | inr later ↦
          rw later
            (All-insert_by (R y) before x ys (flips x y later) h.0, insert_by-Pairwise x ys h.1)
    ]

    -- Every row is related to those after it, if the test decides a total order.
    pub order_by-Pairwise : (xs : List A) → Pairwise R (order_by before xs)
    order_by-Pairwise [] = tt
    order_by-Pairwise (x ∷ xs) = insert_by-Pairwise x (order_by before xs) (order_by-Pairwise xs)
