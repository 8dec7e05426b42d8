-- ===== src/Inventory/Orders.antt =====
-- The operations of `InventoryService` keep one open purchase request for each item.
use restaurant_sahayak.Base.{
  ℕ, ◌+◌, Issued-mono, ◌≡◌, refl, leb, Option, none, some, List, [], ◌∷◌, arith, Bool-cases, inl,
  inr, find,
}
use restaurant_sahayak.Errors.{agent_run_required}
use restaurant_sahayak.Exec.{
  require, Keeps, Keeps-bind, bind-state, bind-Leaves, Keeps-pure, Leaves, pure, ◌>>◌,
}
use restaurant_sahayak.Models.{Session, Action}
use restaurant_sahayak.Models.Enums.{PurchaseStatus}
use restaurant_sahayak.Models.Stock.{InventoryItem, PurchaseRequest, item_row, purchase_row}
use restaurant_sahayak.Settings.{ToolContext}
use restaurant_sahayak.Events.{EventBus}
use restaurant_sahayak.Events.Preserves.{HandlersKeep, announced-Keeps}
use restaurant_sahayak.Approvals.{Proposal, insert_approval, create_approval_request}
use restaurant_sahayak.Approvals.Preserves.{create-Keeps}
use restaurant_sahayak.Inventory.{
  InventoryService, Order, get_item_or_raise, own_item, compare_stock, stock_of, check_stock,
  get_open_purchase_request_for_item, insert_purchase, new_purchase, save_purchase, with_approval,
  request_for_run, request_gated, request_now, request_unless, create_purchase_request,
  is_high_impact,
}
use restaurant_sahayak.Inventory.Purchases.{
  PurchasesOk, PurchasesOk-local, none_open, inserted-PurchasesOk, rewritten-PurchasesOk,
  OneOpenRequest, PurchasesOk-OneOpenRequest,
}

insert_approval-PurchasesOk : (p : Proposal) → Keeps PurchasesOk (insert_approval p)
unfolding insert_approval
insert_approval-PurchasesOk p = record {
  at = λ s h. record {
    issued = Issued-mono s.next_id (s.next_id + 1) s.purchase_requests (omega arith) h.issued;
    distinct = h.distinct;
    single = h.single;
  };
}

-- No request of the item is open.
abbrev Unordered : ℕ → Session → Type 0
Unordered item_id s = get_open_purchase_request_for_item item_id s.purchase_requests ≡ none

insert-PurchasesOk :
    (o : Order) (status : PurchaseStatus) (run_id : Option ℕ) (s : Session)
    → PurchasesOk s
    → Unordered o.item_id s
    → PurchasesOk (insert_purchase o status run_id s).1
unfolding insert_purchase
insert-PurchasesOk o status run_id s h free = elim (Bool-cases (leb o.requested_quantity 0)) [
  | inl refused ↦ rw refused h
  | inr fits ↦ rw fits (
      inserted-PurchasesOk s (new_purchase o status run_id s) refl
        (none_open (new_purchase o status run_id s) s.purchase_requests free) h)
]

save_approval-PurchasesOk :
    (id approval_id : ℕ) → Keeps PurchasesOk (save_purchase id (with_approval approval_id))
unfolding save_purchase
save_approval-PurchasesOk id approval_id = record {
  at = λ s h. rewritten-PurchasesOk s id (with_approval approval_id) (λ x. refl) (λ x y p. p) h;
}

get_item-PurchasesOk :
    (restaurant_id item_id : ℕ) → Keeps PurchasesOk (get_item_or_raise restaurant_id item_id)
unfolding get_item_or_raise
get_item-PurchasesOk restaurant_id item_id = record { at = λ s h. owned (find item_id s.items) s h }
  where
    owned :
        (o : Option InventoryItem) (s : Session)
        → PurchasesOk s
        → PurchasesOk (own_item restaurant_id item_id o s).1
    owned none s h = h
    owned (some item) s h = ground arith

module _ (service : InventoryService)
    (handlers : (bus : EventBus) → service.event_bus ≡ some bus → HandlersKeep PurchasesOk bus)
    (gate_handlers : (bus : EventBus)
      → service.approval_service.event_bus ≡ some bus
      → HandlersKeep PurchasesOk bus) where
  gate-PurchasesOk :
      (p : Proposal) → Keeps PurchasesOk (create_approval_request service.approval_service p)
  gate-PurchasesOk =
      create-Keeps service.approval_service PurchasesOk PurchasesOk-local gate_handlers
        insert_approval-PurchasesOk

  request_now-PurchasesOk :
      (o : Order) (context : ToolContext) (s : Session)
      → PurchasesOk s
      → Unordered o.item_id s
      → PurchasesOk (request_now service o context s).1
  unfolding request_now
  request_now-PurchasesOk o context s h free =
      bind-state PurchasesOk (insert_purchase o PurchaseStatus.approved context.agent_run_id) _ s
        (insert-PurchasesOk o PurchaseStatus.approved context.agent_run_id s h free)
        λ id. announced-Keeps PurchasesOk service.event_bus PurchasesOk-local.events handlers _ _

  request_for_run-PurchasesOk :
      (o : Order) (context : ToolContext) (item : InventoryItem) (run_id : ℕ) (s : Session)
      → PurchasesOk s
      → Unordered o.item_id s
      → PurchasesOk (request_for_run service o context item run_id s).1
  unfolding request_for_run
  request_for_run-PurchasesOk o context item run_id s h free =
      bind-state PurchasesOk (insert_purchase o PurchaseStatus.pending_approval (some run_id)) _ s
        (insert-PurchasesOk o PurchaseStatus.pending_approval (some run_id) s h free)
        λ id.
          Keeps-bind PurchasesOk (create_approval_request service.approval_service _) _
            (gate-PurchasesOk _)
            λ approval_id.
              Keeps-bind PurchasesOk (save_purchase id (with_approval approval_id)) _
                (save_approval-PurchasesOk id approval_id)
                λ _.
                  announced-Keeps PurchasesOk service.event_bus PurchasesOk-local.events handlers _
                    _

  request_gated-PurchasesOk :
      (o : Order) (context : ToolContext) (item : InventoryItem) (s : Session)
      → PurchasesOk s
      → Unordered o.item_id s
      → PurchasesOk (request_gated service o context item s).1
  unfolding request_gated
  request_gated-PurchasesOk o context item s h free =
      bind-Leaves PurchasesOk (λ _ s. Unordered o.item_id s)
        (require context.agent_run_id agent_run_required) _ s (attributed context.agent_run_id)
        λ run_id s h free. request_for_run-PurchasesOk o context item run_id s h free
    where
      attributed :
          (run_id : Option ℕ)
          → Leaves PurchasesOk (λ _ s. Unordered o.item_id s) (require run_id agent_run_required s)
      attributed none = h
      attributed (some run_id) = (h, free)

  request_unless-PurchasesOk :
      (o : Order) (context : ToolContext) (item : InventoryItem) (existing : Option PurchaseRequest)
      (s : Session)
      → get_open_purchase_request_for_item o.item_id s.purchase_requests ≡ existing
      → PurchasesOk s
      → PurchasesOk (request_unless service o context item existing s).1
  unfolding request_unless
  request_unless-PurchasesOk o context item (some existing) s e h = h
  request_unless-PurchasesOk o context item none s e h =
      elim (Bool-cases (is_high_impact service.settings o.estimated_cost)) [
        | inl high ↦ rw high (request_gated-PurchasesOk o context item s h e)
        | inr low ↦ rw low (request_now-PurchasesOk o context s h e)
      ]

  -- A purchase request keeps them, whether it is made, gated, reported or refused.
  pub create-PurchasesOk :
      (o : Order) (context : ToolContext)
      → Keeps PurchasesOk (create_purchase_request service o context)
  unfolding create_purchase_request
  create-PurchasesOk o context =
      Keeps-bind PurchasesOk (get_item_or_raise o.restaurant_id o.item_id) _
        (get_item-PurchasesOk o.restaurant_id o.item_id)
        λ item. record { at = λ s h. request_unless-PurchasesOk o context item _ s refl h }

  stock_of-PurchasesOk :
      (restaurant_id : ℕ) (item : InventoryItem) (required run_id : Option ℕ)
      → Keeps PurchasesOk (stock_of service restaurant_id item required run_id)
  unfolding compare_stock
  stock_of-PurchasesOk restaurant_id item none run_id = Keeps-pure PurchasesOk _
  stock_of-PurchasesOk restaurant_id item (some n) run_id =
      elim (Bool-cases (leb n item.quantity_on_hand)) [
        | inl enough ↦ rw enough (Keeps-pure PurchasesOk _)
        | inr short ↦
            rw short
              (announced-Keeps PurchasesOk service.event_bus PurchasesOk-local.events handlers _ _)
      ]

  pub check_stock-PurchasesOk :
      (restaurant_id item_id : ℕ) (required run_id : Option ℕ)
      → Keeps PurchasesOk (check_stock service restaurant_id item_id required run_id)
  unfolding check_stock
  check_stock-PurchasesOk restaurant_id item_id required run_id =
      Keeps-bind PurchasesOk (get_item_or_raise restaurant_id item_id) _
        (get_item-PurchasesOk restaurant_id item_id)
        λ item. stock_of-PurchasesOk restaurant_id item required run_id

-- A call of the service by a client
pub data StockRequest : Type 0 where
  order : Order → StockRequest
  check : ℕ → ℕ → Option ℕ → StockRequest

-- One call; what it returns is dropped.
pub handle : InventoryService → ToolContext → StockRequest → Action (Unit {0})
handle service context (order o) = create_purchase_request service o context >> pure tt
handle service context (check restaurant_id item_id required) =
    check_stock service restaurant_id item_id required context.agent_run_id >> pure tt

-- Calls one after the other, each a number of microseconds after the one before
unfoldable pub run : InventoryService → List (ℕ × ToolContext × StockRequest) → Session → Session
run service [] s = s
run service ((later, context, request) ∷ rest) s =
    run service rest (handle service context request (record s { now = s.now + later })).1

module _ (service : InventoryService)
    (handlers : (bus : EventBus) → service.event_bus ≡ some bus → HandlersKeep PurchasesOk bus)
    (gate_handlers : (bus : EventBus)
      → service.approval_service.event_bus ≡ some bus
      → HandlersKeep PurchasesOk bus) where
  handle-PurchasesOk :
      (context : ToolContext) (request : StockRequest)
      → Keeps PurchasesOk (handle service context request)
  unfolding handle
  handle-PurchasesOk context (order o) =
      Keeps-bind PurchasesOk (create_purchase_request service o context) _
        (create-PurchasesOk service handlers gate_handlers o context) λ _. Keeps-pure PurchasesOk tt
  handle-PurchasesOk context (check restaurant_id item_id required) =
      Keeps-bind PurchasesOk
        (check_stock service restaurant_id item_id required context.agent_run_id) _
        (check_stock-PurchasesOk service handlers gate_handlers restaurant_id item_id required
          context.agent_run_id)
        λ _. Keeps-pure PurchasesOk tt

  run-PurchasesOk :
      (requests : List (ℕ × ToolContext × StockRequest)) (s : Session)
      → PurchasesOk s
      → PurchasesOk (run service requests s)
  unfolding run
  run-PurchasesOk [] s h = h
  run-PurchasesOk ((later, context, request) ∷ rest) s h =
      run-PurchasesOk rest (handle service context request (record s { now = s.now + later })).1 (
        (handle-PurchasesOk context request).at (record s { now = s.now + later })
          (PurchasesOk-local.clock s (s.now + later) s.next_id (omega arith) h))

  -- From a table with at most one open purchase request for each item, no sequence of purchase
  -- requests and stock checks leads to two for one item, whichever of them raise or wait for an
  -- approval, if the handlers of the events keep that.
  pub run-OneOpenRequest :
      (requests : List (ℕ × ToolContext × StockRequest)) (s : Session)
      → PurchasesOk s
      → OneOpenRequest (run service requests s)
  run-OneOpenRequest requests s h =
      PurchasesOk-OneOpenRequest (run service requests s) (run-PurchasesOk requests s h)
