-- ===== src/Inventory/Alerts.antt =====
-- The listings of the stock: `list_items`, `get_inventory` and `list_alerts`. The ILIKE of the database
-- and its order of names, and Python's order of texts, are parameters.
use restaurant_sahayak.Base.{
  ℕ, String, str_eq, Bool, true, false, not, ◌&&◌, ◌||◌, ◌==◌, Option, none, List, select, order_by,
}
use restaurant_sahayak.Exec.{gets}
use restaurant_sahayak.Models.{Session, Action}
use restaurant_sahayak.Models.Stock.{InventoryItem, item_row}
use restaurant_sahayak.Reservations.Repository.{if_given}
use restaurant_sahayak.Inventory.{out_of_stock, classify}

pub record TextOrder : Type 0 where
  pub ilike : String → String → Bool
  pub name_leb : String → String → Bool
  pub str_leb : String → String → Bool

-- The WHERE clause of `list_items`
abbrev pub is_item : TextOrder → ℕ → Option String → Option String → InventoryItem → Bool
is_item texts restaurant_id status name_contains item =
    item.restaurant_id == restaurant_id
    && item.is_active
    && if_given (str_eq item.status) status
    && if_given (texts.ilike item.name) name_contains

-- `list_items`
unfoldable pub list_items :
    TextOrder → ℕ → Option String → Option String → Session → List InventoryItem
list_items texts restaurant_id status name_contains s =
    order_by (λ x y. texts.name_leb x.name y.name)
      (select (is_item texts restaurant_id status name_contains) s.items)

-- `get_inventory`
unfoldable pub get_inventory :
    TextOrder → ℕ → Option String → Option String → Action (List InventoryItem)
get_inventory texts restaurant_id status name_contains =
    gets (list_items texts restaurant_id status name_contains)

-- `self._classify(i)[0] != "out_of_stock"`
unfoldable pub is_left : InventoryItem → Bool
is_left item = elim (classify item).0 [ out_of_stock ↦ false | _ ↦ true ]

-- The order of the sort keys: False comes before True, then the names.
unfoldable pub ranks_before : TextOrder → InventoryItem → InventoryItem → Bool
ranks_before texts x y =
    (not (is_left x) && is_left y)
    || ((not (is_left x) || is_left y) && texts.str_leb x.name y.name)

-- `list_alerts`
unfoldable pub list_alerts : TextOrder → ℕ → Session → List InventoryItem
list_alerts texts restaurant_id s =
    order_by (ranks_before texts)
      (select (λ i. (classify i).2) (list_items texts restaurant_id none none s))
