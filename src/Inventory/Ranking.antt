-- ===== src/Inventory/Ranking.antt =====
-- The alerts of the stock: exactly the items that need an action, the most urgent first.
use restaurant_sahayak.Base.{
  ◌≡◌, refl, none, ℕ, String, Bool, true, false, not, ◌&&◌, ◌==◌, leb, List, [], ◌∷◌, select,
  order_by, insert_by, order_by-Perm, order_by-Pairwise, Pairwise, arith, Bool-cases, inl, inr,
}
use mathlib.Core.Path.{subst}
use mathlib.Core.List.{Perm}
use mathlib.Core.List.Perm
use restaurant_sahayak.Models.{Session}
use restaurant_sahayak.Models.Stock.{InventoryItem}
use restaurant_sahayak.Inventory.{classify}
use restaurant_sahayak.Inventory.Alerts.{
  TextOrder, is_item, list_items, is_left, ranks_before, list_alerts,
}

module _ {A : Type 0} (p : A → Bool) (before : A → A → Bool) where
  select-insert_by-Perm :
      (x : A) (ys : List A) → Perm (select p (insert_by before x ys)) (select p (x ∷ ys))
  select-insert_by-Perm x [] = Perm.refl _
  select-insert_by-Perm x (y ∷ ys) = elim (Bool-cases (before x y)) [
    | inl here ↦ rw here (Perm.refl _)
    | inr later ↦ rw later (elim (Bool-cases (p y)) [
      | inl yes_y ↦ elim (Bool-cases (p x)) [
        | inl yes_x ↦
            let rest = rw yes_x at (select-insert_by-Perm x ys) in
            rw yes_y (rw yes_x (Perm.trans (Perm.cons y rest) (Perm.swap x y (select p ys))))
        | inr no_x ↦
            let rest = rw no_x at (select-insert_by-Perm x ys) in
            rw yes_y (rw no_x (Perm.cons y rest))
      ]
      | inr no_y ↦ rw no_y (select-insert_by-Perm x ys)
    ])
  ]

  -- A selection from ordered rows loses and adds no row.
  select-order_by-Perm : (xs : List A) → Perm (select p (order_by before xs)) (select p xs)
  select-order_by-Perm [] = Perm.refl []
  select-order_by-Perm (x ∷ xs) =
      Perm.trans (select-insert_by-Perm x (order_by before xs)) (elim (Bool-cases (p x)) [
        | inl yes_x ↦ rw yes_x (Perm.cons x (select-order_by-Perm xs))
        | inr no_x ↦ rw no_x (select-order_by-Perm xs)
      ])

select-all :
    {A : Type 0} (p q r : A → Bool) (xs : List A)
    → ((a : A) → (p a && q a) ≡ r a)
    → select q (select p xs) ≡ select r xs
select-all p q r [] h = refl
select-all p q r (x ∷ xs) h = ground (arith, h x, select-all p q r xs h)

-- Nothing is left of the item.
abbrev pub is_out : InventoryItem → Bool
is_out i = i.quantity_on_hand == 0

-- An active item of the restaurant at or below its threshold
abbrev pub is_short : ℕ → InventoryItem → Bool
is_short restaurant_id i =
    i.restaurant_id == restaurant_id && i.is_active && leb i.quantity_on_hand i.low_stock_threshold

-- No item that is out comes after one that is not, and items alike in that stand by name.
abbrev pub Ranked : TextOrder → InventoryItem → InventoryItem → Type 0
Ranked texts x y =
    (is_out y ≡ true → is_out x ≡ true) × (is_out x ≡ is_out y → texts.str_leb x.name y.name ≡ true)

is_left-is_out : (i : InventoryItem) → is_left i ≡ not (is_out i)
unfolding is_left classify
is_left-is_out i = ground arith

-- What lies between two equal truth values is equal to both.
between : (p q r : Bool) → (q ≡ true → p ≡ true) → (r ≡ true → q ≡ true) → p ≡ r → (p ≡ q) × (q ≡ r)
between true true r f g e = (refl, e)
between true false r f g e = ground arith
between false true r f g e = ground arith
between false false r f g e = (refl, e)

is_item-is_short :
    (texts : TextOrder) (restaurant_id : ℕ) (i : InventoryItem)
    → (is_item texts restaurant_id none none i && (classify i).2) ≡ is_short restaurant_id i
unfolding classify
is_item-is_short texts restaurant_id i = ground arith

module _ (texts : TextOrder)
    (total : (a b : String) → texts.str_leb a b ≡ false → texts.str_leb b a ≡ true)
    (trans : (a b c : String)
      → texts.str_leb a b ≡ true
      → texts.str_leb b c ≡ true
      → texts.str_leb a c ≡ true) where
  ranks_before-Ranked : (x y : InventoryItem) → ranks_before texts x y ≡ true → Ranked texts x y
  unfolding ranks_before
  ranks_before-Ranked x y e =
      let left_x = is_left-is_out x in
      let left_y = is_left-is_out y in (λ out. ground arith, λ alike. ground arith)

  flipped : (x y : InventoryItem) → ranks_before texts x y ≡ false → Ranked texts y x
  unfolding ranks_before
  flipped x y e =
      let left_x = is_left-is_out x in
      let left_y = is_left-is_out y in
      (λ out. ground arith, λ alike. ground (arith, total x.name y.name))

  Ranked-trans : (x y z : InventoryItem) → Ranked texts x y → Ranked texts y z → Ranked texts x z
  Ranked-trans x y z a b = (
    λ out. a.0 (b.0 out),
    λ alike.
        let (left, right) = between (is_out x) (is_out y) (is_out z) a.0 b.0 alike in
        trans x.name y.name z.name (a.1 left) (b.1 right),
  )

-- The alerts of a restaurant are its active items at or below their thresholds, each once for each
-- row, those that are out before those that are low, and by name among these, if Python's order of
-- texts is total and transitive.
pub list_alerts-Ranked :
    (texts : TextOrder) (restaurant_id : ℕ) (s : Session)
    → ((a b : String) → texts.str_leb a b ≡ false → texts.str_leb b a ≡ true)
    → ((a b c : String)
        → texts.str_leb a b ≡ true
        → texts.str_leb b c ≡ true
        → texts.str_leb a c ≡ true)
    → Perm (list_alerts texts restaurant_id s) (select (is_short restaurant_id) s.items)
      × Pairwise (Ranked texts) (list_alerts texts restaurant_id s)
unfolding list_alerts list_items
list_alerts-Ranked texts restaurant_id s total trans =
    let items = select (is_item texts restaurant_id none none) s.items in
    let by_name = order_by (λ (x y : InventoryItem). texts.name_leb x.name y.name) items in
    (
      Perm.trans (order_by-Perm (ranks_before texts) (select (λ i. (classify i).2) by_name)) (
          subst (λ l. Perm (select (λ i. (classify i).2) by_name) l)
            (select-all (is_item texts restaurant_id none none) (λ i. (classify i).2)
              (is_short restaurant_id) s.items (is_item-is_short texts restaurant_id))
            (select-order_by-Perm (λ i. (classify i).2) _ items)),
      order_by-Pairwise (Ranked texts) (ranks_before texts) (ranks_before-Ranked texts total trans)
          (flipped texts total trans) (Ranked-trans texts total trans)
          (select (λ i. (classify i).2) by_name),
    )
