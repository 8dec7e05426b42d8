-- ===== src/Models/Stock.antt =====
-- Inventory items, their transactions and purchase requests (app/models/inventory.py,
-- purchase_request.py). Numeric(12, 3) is counted in thousandths and Numeric(10, 2) in cents.
use restaurant_sahayak.Base.{ℕ, String, Bool, Option, HasId}
use restaurant_sahayak.Base.Int.{ℤ}
use restaurant_sahayak.Models.Enums.{PurchaseStatus}

pub record InventoryItem : Type 0 where
  pub id : ℕ
  pub restaurant_id : ℕ
  pub name : String
  pub unit : String
  pub quantity_on_hand : ℕ
  pub low_stock_threshold : ℕ
  pub status : String
  pub is_active : Bool

pub record InventoryTransaction : Type 0 where
  pub id : ℕ
  pub restaurant_id : ℕ
  pub item_id : ℕ
  pub quantity_delta : ℤ
  pub recorded_at : ℕ

pub record PurchaseRequest : Type 0 where
  pub id : ℕ
  pub restaurant_id : ℕ
  pub item_id : ℕ
  pub requested_quantity : ℕ
  pub estimated_cost : Option ℕ
  pub status : PurchaseStatus
  pub approval_id : Option ℕ
  pub requested_by_agent_run_id : Option ℕ
  pub created_at : ℕ

instance abbrev pub item_row : HasId InventoryItem
item_row = record { id_of = λ r. r.id }

instance abbrev pub purchase_row : HasId PurchaseRequest
purchase_row = record { id_of = λ r. r.id }
