-- ===== src/Tests/Stock.antt =====
-- The stock of the test restaurant, and its purchase requests.
use mathlib.Core.List.{Perm}
use restaurant_sahayak.Base.{
  select, str_eq, Pairwise, ◌≡◌, refl, ℕ, true, none, some, List, [], ◌∷◌, arith, update,
}
use restaurant_sahayak.Errors.{ok}
use restaurant_sahayak.Models.{Session}
use restaurant_sahayak.Models.Enums.{ApprovalStatus, PurchaseStatus}
use restaurant_sahayak.Models.Stock.{InventoryItem, PurchaseRequest, purchase_row}
use restaurant_sahayak.Models.Approvals.{
  Approval, Parameters, success, already_pending, approval_row,
}
use restaurant_sahayak.Settings.{default_settings, ToolContext, pending_approval}
use restaurant_sahayak.Approvals.{ApprovalService, approve, reject, approved_by, with_result}
use restaurant_sahayak.Approvals.Consistency.{ApprovalsConsistent}
use restaurant_sahayak.Inventory.{
  classify, InventoryService, Order, create_purchase_request, as_approved,
  get_open_purchase_request_for_item,
}
use restaurant_sahayak.Inventory.Alerts.{TextOrder, list_items, is_left, ranks_before, list_alerts}
use restaurant_sahayak.Inventory.Ranking.{is_short, Ranked, list_alerts-Ranked}
use restaurant_sahayak.Inventory.Purchases.{PurchasesOk, OneOpenRequest}
use restaurant_sahayak.Inventory.Orders.{StockRequest, run, run-OneOpenRequest}
use restaurant_sahayak.Executors.{build_executors}
use restaurant_sahayak.Executors.Purchases.{StockAs, approve_purchase, reject_blocks_item}
use restaurant_sahayak.Tests.{restaurant, context, bus, bus_keeps, gate, approval_of}

abbrev rice : InventoryItem
rice = record {
  id = 50;
  restaurant_id = 1;
  name = "rice";
  unit = "kg";
  quantity_on_hand = 2000;
  low_stock_threshold = 5000;
  status = "low";
  is_active = true;
}

abbrev request : PurchaseRequest
request = record {
  id = 60;
  restaurant_id = 1;
  item_id = 50;
  requested_quantity = 8000;
  estimated_cost = some 30000;
  status = PurchaseStatus.pending_approval;
  approval_id = some 42;
  requested_by_agent_run_id = some 5;
  created_at = 10;
}

abbrev purchase_approval : Approval
purchase_approval = record (approval_of 42 ApprovalStatus.pending none none) {
  domain = "purchase";
  parameters = Parameters.approve_purchase_request 60;
}

-- A request for rice waits for its approval.
abbrev stocked : Session
stocked = record restaurant {
  items = rice ∷ [];
  purchase_requests = request ∷ [];
  approvals = purchase_approval ∷ [];
}

abbrev inventory : InventoryService
inventory = record { approval_service = gate; settings = default_settings; event_bus = some bus }

abbrev order_rice : Order
order_rice = record {
  restaurant_id = 1;
  item_id = 50;
  requested_quantity = 1000;
  estimated_cost = some 90000;
}

empty-PurchasesOk : PurchasesOk (record stocked { purchase_requests = [] })
empty-PurchasesOk = record { issued = tt; distinct = tt; single = tt }

-- The first order is gated, the second is answered with it.
abbrev requests : List (ℕ × ToolContext × StockRequest)
requests =
    (1, context, StockRequest.order order_rice)
    ∷ (1, context, StockRequest.check 1 50 (some 4000))
    ∷ (1, context, StockRequest.order order_rice)
    ∷ []

run-OneOpenRequest_example :
    OneOpenRequest (run inventory requests (record stocked { purchase_requests = [] }))
run-OneOpenRequest_example =
    run-OneOpenRequest inventory (bus_keeps PurchasesOk) (bus_keeps PurchasesOk) requests
      (record stocked { purchase_requests = [] }) empty-PurchasesOk

abbrev wired : ApprovalService
wired = record {
  executors = build_executors none (some inventory);
  memory_service = none;
  event_bus = none;
}

approve_purchase_example : approve wired 42 7 stocked ≡ (
  ok 42,
  record stocked {
    approvals =
        update 42
          (with_result (success 60) 1000)
          (update 42 (approved_by 7 1000) stocked.approvals);
    purchase_requests = update 60 as_approved stocked.purchase_requests;
  },
)
approve_purchase_example =
    approve_purchase none inventory wired 42 7 60 purchase_approval request stocked refl refl refl
      refl refl refl refl refl

stocked-ApprovalsConsistent : ApprovalsConsistent stocked
stocked-ApprovalsConsistent = record {
  issued = ground arith;
  distinct = ground arith;
  consistent = ((refl, refl), tt);
}

reject_blocks_item_example :
    let after_reject = (reject gate 42 7 none stocked).1 in
    create_purchase_request inventory order_rice context after_reject
    ≡ (ok (pending_approval 42 (already_pending 42)), after_reject)
unfolding get_open_purchase_request_for_item
reject_blocks_item_example =
    reject_blocks_item gate inventory 42 7 none order_rice context rice request stocked
      (bus_keeps (StockAs stocked)) stocked-ApprovalsConsistent refl refl refl refl refl

abbrev texts : TextOrder
texts = record { ilike = str_eq; name_leb = λ _ _. true; str_leb = λ _ _. true }

abbrev oil : InventoryItem
oil = record rice { id = 51; name = "oil"; quantity_on_hand = 0 }

-- Rice is low, and oil is out.
abbrev short_stock : Session
short_stock = record restaurant { items = rice ∷ oil ∷ [] }

list_alerts-Ranked_example :
    Perm (list_alerts texts 1 short_stock) (select (is_short 1) short_stock.items)
    × Pairwise (Ranked texts) (list_alerts texts 1 short_stock)
list_alerts-Ranked_example =
    list_alerts-Ranked texts 1 short_stock (λ a b e. refl) (λ a b c e e'. refl)

oil_first : list_alerts texts 1 short_stock ≡ oil ∷ rice ∷ []
unfolding list_alerts list_items ranks_before is_left classify
oil_first = refl
