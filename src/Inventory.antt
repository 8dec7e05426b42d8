-- ===== src/Inventory.antt =====
-- `InventoryService` (app/services/inventory_service.py) and its repository
-- (app/repositories/inventory_repo.py): the classification of stock, the stock check, the direct
-- reorder quantity, purchase requests and their approval. The projection of
-- `calculate_required_inventory` and the analysis that is built on it are left out.
pub mod Purchases
pub mod Orders
pub mod Alerts
pub mod Ranking
unfoldable pub use restaurant_sahayak.Events.{announce}
use restaurant_sahayak.Base.{
  ℕ, ◌+◌, ◌-◌, ◌*◌, String, Bool, true, false, ◌&&◌, ◌==◌, leb, ltb, Option, none, some, List, [],
  ◌∷◌, ◌++◌, select, find, update, if◌then◌else◌,
}
use restaurant_sahayak.Errors.{
  integrity_error, item_not_found, agent_run_required, unsupported_action,
  purchase_request_not_found,
}
use restaurant_sahayak.Exec.{pure, throw, raise, gets, require, ◌>>=◌, ◌>>◌}
use restaurant_sahayak.Models.{Session, Action}
use restaurant_sahayak.Models.Enums.{PurchaseStatus, is_open, is_pending_approval}
use restaurant_sahayak.Models.Stock.{InventoryItem, PurchaseRequest, item_row, purchase_row}
use restaurant_sahayak.Models.Approvals.{
  Parameters, Reason, Payload, restock, already_pending, inventory_low, purchase_requested,
}
use restaurant_sahayak.Settings.{Settings, ToolContext, Outcome, done, pending_approval}
use restaurant_sahayak.Events.{EventBus, Publication, publish}
use restaurant_sahayak.Approvals.{ApprovalService, create_approval_request, get_row}

pub record InventoryService : Type 0 where
  pub approval_service : ApprovalService
  pub settings : Settings
  pub event_bus : Option EventBus

-- `_publish`
abbrev pub stock_event : String → ℕ → ℕ → Payload → Option ℕ → Publication
stock_event event_type restaurant_id entity_id payload correlation_id = record {
  event_type = event_type;
  restaurant_id = restaurant_id;
  entity_id = some entity_id;
  payload = payload;
  published_by = "inventory_service";
  correlation_id = correlation_id;
  idempotency_key = none;
}

-- `_get_item_or_raise`
abbrev pub own_item : ℕ → ℕ → Option InventoryItem → Action InventoryItem
own_item restaurant_id item_id none = raise (item_not_found item_id)
own_item restaurant_id item_id (some item) =
    if item.restaurant_id == restaurant_id then pure item else raise (item_not_found item_id)

unfoldable pub get_item_or_raise : ℕ → ℕ → Action InventoryItem
get_item_or_raise restaurant_id item_id s = own_item restaurant_id item_id (find item_id s.items) s

pub data StockStatus : Type 0 where
  out_of_stock low ok : StockStatus

pub data Severity : Type 0 where
  critical warning no_alert : Severity

-- `_SEVERITY_BY_STATUS`
abbrev pub severity : StockStatus → Severity
severity out_of_stock = critical
severity low = warning
severity ok = no_alert

abbrev pub needs_action : StockStatus → Bool
needs_action ok = false
needs_action _ = true

-- `_classify`: the status, its severity, and whether an action is required
unfoldable pub classify : InventoryItem → StockStatus × Severity × Bool
classify item =
    let status =
      if leb item.quantity_on_hand 0
      then out_of_stock
      else if leb item.quantity_on_hand item.low_stock_threshold
      then low
      else ok in
    (status, severity status, needs_action status)

-- `_target_quantity`
abbrev pub target_quantity : InventoryItem → ℕ
target_quantity item = item.low_stock_threshold * 2

-- `calculate_reorder_quantity`: the target and what is missing to it, `max(0, target - on hand)`
unfoldable pub calculate_reorder_quantity : ℕ → ℕ → Action (ℕ × ℕ)
calculate_reorder_quantity restaurant_id item_id = do
  item ← get_item_or_raise restaurant_id item_id
  pure (target_quantity item, target_quantity item - item.quantity_on_hand)

-- The tuple of `check_stock`, with the item's identity
pub record StockCheck : Type 0 where
  pub item_id : ℕ
  pub sufficient : Option Bool
  pub shortfall : Option ℕ

-- `check_stock` where a quantity is required
unfoldable pub compare_stock :
    InventoryService → ℕ → InventoryItem → ℕ → Option ℕ → Action StockCheck
compare_stock service restaurant_id item required agent_run_id =
    if leb required item.quantity_on_hand
    then pure (record { item_id = item.id; sufficient = some true; shortfall = none })
    else (announce service.event_bus (
          stock_event "inventory.low" restaurant_id item.id
            (inventory_low item.id item.name item.quantity_on_hand item.low_stock_threshold required
              (required - item.quantity_on_hand))
            agent_run_id)
        >> pure (record {
          item_id = item.id;
          sufficient = some false;
          shortfall = some (required - item.quantity_on_hand);
        }))

abbrev pub stock_of : InventoryService → ℕ → InventoryItem → Option ℕ → Option ℕ → Action StockCheck
stock_of service restaurant_id item none agent_run_id =
    pure (record { item_id = item.id; sufficient = none; shortfall = none })
stock_of service restaurant_id item (some required) agent_run_id =
    compare_stock service restaurant_id item required agent_run_id

-- `check_stock`; the last argument is `context.agent_run_id`, if there is a context.
unfoldable pub check_stock : InventoryService → ℕ → ℕ → Option ℕ → Option ℕ → Action StockCheck
check_stock service restaurant_id item_id required agent_run_id = do
  item ← get_item_or_raise restaurant_id item_id
  stock_of service restaurant_id item required agent_run_id

-- The WHERE clause of `get_open_purchase_request_for_item`
abbrev pub open_for : ℕ → PurchaseRequest → Bool
open_for item_id r = r.item_id == item_id && is_open r.status

-- ORDER BY created_at DESC LIMIT 1
abbrev pub latest : List PurchaseRequest → Option PurchaseRequest
latest [] = none
latest (r ∷ rs) = elim (latest rs) [
  | none ↦ some r
  | some q ↦ if ltb q.created_at r.created_at then some r else some q
]

-- `get_open_purchase_request_for_item`
unfoldable pub get_open_purchase_request_for_item :
    ℕ → List PurchaseRequest → Option PurchaseRequest
get_open_purchase_request_for_item item_id rows = latest (select (open_for item_id) rows)

-- The arguments of `create_purchase_request`: thousandths of a unit, and cents
pub record Order : Type 0 where
  pub restaurant_id : ℕ
  pub item_id : ℕ
  pub requested_quantity : ℕ
  pub estimated_cost : Option ℕ

abbrev pub new_purchase : Order → PurchaseStatus → Option ℕ → Session → PurchaseRequest
new_purchase o status agent_run_id s = record {
  id = s.next_id;
  restaurant_id = o.restaurant_id;
  item_id = o.item_id;
  requested_quantity = o.requested_quantity;
  estimated_cost = o.estimated_cost;
  status = status;
  approval_id = none;
  requested_by_agent_run_id = agent_run_id;
  created_at = s.now;
}

-- `repo.create_purchase_request`, with the CHECK constraint on the quantity
unfoldable pub insert_purchase : Order → PurchaseStatus → Option ℕ → Action ℕ
insert_purchase o status agent_run_id s =
    if leb o.requested_quantity 0
    then throw (integrity_error "ck_purchase_requests_quantity_positive") s
    else pure s.next_id (record s {
      purchase_requests = s.purchase_requests ++ new_purchase o status agent_run_id s ∷ [];
      next_id = s.next_id + 1;
    })

-- Assignments to a purchase request, and `save_purchase_request`
unfoldable pub save_purchase : ℕ → (PurchaseRequest → PurchaseRequest) → Action (Unit {0})
save_purchase id f s = pure tt (record s { purchase_requests = update id f s.purchase_requests })

-- What the caller gets where a request for the item is open
abbrev pub report_existing : PurchaseRequest → Outcome
report_existing existing =
    if is_pending_approval existing.status
    then elim existing.approval_id [
      | none ↦ done existing.id
      | some approval_id ↦ pending_approval approval_id (already_pending approval_id)
    ]
    else done existing.id

-- `estimated_cost is not None and estimated_cost >= threshold`
abbrev pub is_high_impact : Settings → Option ℕ → Bool
is_high_impact settings none = false
is_high_impact settings (some cost) = leb settings.purchase_request_high_impact_cost_threshold cost

abbrev pub restock_reason : InventoryItem → Order → Reason
restock_reason item o =
    restock item.name o.requested_quantity item.unit item.quantity_on_hand item.low_stock_threshold
      o.estimated_cost

-- The event of a new request
abbrev pub requested_event : Order → ℕ → PurchaseStatus → Option ℕ → Publication
requested_event o id status agent_run_id =
    stock_event "purchase.requested" o.restaurant_id id
      (purchase_requested id o.item_id o.requested_quantity o.estimated_cost status) agent_run_id

abbrev pub with_approval : ℕ → PurchaseRequest → PurchaseRequest
with_approval approval_id r = record r { approval_id = some approval_id }

-- The branch of a high-impact request that is attributed to an agent run
unfoldable pub request_for_run :
    InventoryService → Order → ToolContext → InventoryItem → ℕ → Action Outcome
request_for_run service o context item agent_run_id = do
  id ← insert_purchase o PurchaseStatus.pending_approval (some agent_run_id)
  approval_id ← create_approval_request service.approval_service (record {
    restaurant_id = o.restaurant_id;
    domain = "purchase";
    action = "create_purchase_request";
    agent_name = context.acting_agent;
    proposed_by_agent_run_id = agent_run_id;
    parameters = Parameters.approve_purchase_request id;
    reason = restock_reason item o;
    risk_level = "HIGH";
    expires_at = none;
  })
  save_purchase id (with_approval approval_id)
  announce service.event_bus
      (requested_event o id PurchaseStatus.pending_approval (some agent_run_id))
  pure (pending_approval approval_id (restock_reason item o))

-- The branch of a high-impact request, which waits for its approval
unfoldable pub request_gated :
    InventoryService → Order → ToolContext → InventoryItem → Action Outcome
request_gated service o context item =
    require context.agent_run_id agent_run_required >>= request_for_run service o context item

-- The branch of a small request, which is approved at once
unfoldable pub request_now : InventoryService → Order → ToolContext → Action Outcome
request_now service o context = do
  id ← insert_purchase o PurchaseStatus.approved context.agent_run_id
  announce service.event_bus (requested_event o id PurchaseStatus.approved context.agent_run_id)
  pure (done id)

-- `create_purchase_request`, once it is known whether a request for the item is open
unfoldable pub request_unless :
    InventoryService → Order → ToolContext → InventoryItem → Option PurchaseRequest → Action Outcome
request_unless service o context item (some existing) = pure (report_existing existing)
request_unless service o context item none =
    if is_high_impact service.settings o.estimated_cost
    then request_gated service o context item
    else request_now service o context

-- `create_purchase_request`
unfoldable pub create_purchase_request : InventoryService → Order → ToolContext → Action Outcome
create_purchase_request service o context = do
  item ← get_item_or_raise o.restaurant_id o.item_id
  existing ← gets (λ s. get_open_purchase_request_for_item o.item_id s.purchase_requests)
  request_unless service o context item existing

abbrev pub as_approved : PurchaseRequest → PurchaseRequest
as_approved r = record r { status = PurchaseStatus.approved }

-- The last steps of `execute_approved_action`, on the row that was found
unfoldable pub approve_found : ℕ → Option PurchaseRequest → Action ℕ
approve_found id none = raise (purchase_request_not_found id)
approve_found id (some r) = do save_purchase r.id as_approved; pure r.id

-- The key "action" of a parameters dict
abbrev pub action_of : Parameters → String
action_of (Parameters.modify_reservation _ _) = "modify_reservation"
action_of (Parameters.cancel_reservation _ _) = "cancel_reservation"
action_of (Parameters.approve_purchase_request _) = "approve_purchase_request"
action_of (Parameters.bare action) = action

-- The body of `execute_approved_action`, by the parameters
unfoldable pub execute_purchase : Parameters → Action ℕ
execute_purchase (Parameters.approve_purchase_request id) s =
    approve_found id (find id s.purchase_requests) s
execute_purchase parameters s = raise (unsupported_action (action_of parameters)) s

-- `execute_approved_action`, the executor of the domain "purchase"
unfoldable pub execute_approved_action : ℕ → Action ℕ
execute_approved_action approval_id = do a ← get_row approval_id; execute_purchase a.parameters
