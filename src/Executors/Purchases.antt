-- ===== src/Executors/Purchases.antt =====
-- A purchase request through the gate: what approving and rejecting it does.
use restaurant_sahayak.Base.{
  ℕ, ◌≡◌, refl, ap, true, Option, none, some, ◌==◌, arith, find, find-id, find-update_self, update,
  Text,
}
use restaurant_sahayak.Errors.{ok}
use restaurant_sahayak.Exec.{Keeps}
use restaurant_sahayak.Models.{Session}
use restaurant_sahayak.Models.Enums.{pending, PurchaseStatus}
use restaurant_sahayak.Models.Stock.{InventoryItem, PurchaseRequest, item_row, purchase_row}
use restaurant_sahayak.Models.Approvals.{
  Approval, success, approve_purchase_request, already_pending, approval_row,
}
use restaurant_sahayak.Settings.{ToolContext, pending_approval}
use restaurant_sahayak.Events.{EventBus}
use restaurant_sahayak.Events.Preserves.{HandlersKeep}
use restaurant_sahayak.Approvals.{
  ApprovalService, approve, reject, turn_down, announce, approved_by, with_result, record_result,
  insert_approval, save,
}
use restaurant_sahayak.Approvals.Preserves.{IsLocal, Writes, reject-Keeps}
use restaurant_sahayak.Approvals.Consistency.{
  ApprovalsConsistent, ApprovalsConsistent-local, Writes-ApprovalsConsistent,
}
use restaurant_sahayak.Approvals.Outcomes.{approve_executes, get_row_lem}
use restaurant_sahayak.Reservations.Service.{ReservationService}
use restaurant_sahayak.Inventory.{
  InventoryService, Order, as_approved, approve_found, execute_purchase, execute_approved_action,
  save_purchase, get_item_or_raise, get_open_purchase_request_for_item, request_unless,
  create_purchase_request,
}
use restaurant_sahayak.Executors.{build_executors}

-- The executor of the domain, on a session that has the approval and its request
execute_found :
    (id request_id : ℕ) (a : Approval) (r : PurchaseRequest) (s : Session)
    → find id s.approvals ≡ some a
    → a.parameters ≡ approve_purchase_request request_id
    → find request_id s.purchase_requests ≡ some r
    → execute_approved_action id s ≡ (
      ok request_id,
      record s { purchase_requests = update request_id as_approved s.purchase_requests },
    )
unfolding execute_approved_action execute_purchase approve_found save_purchase
execute_found id request_id a r s e named found = rw (get_row_lem id a s e) (
    rw (named, execute_purchase)
      (rw found (
        ap (λ k. (ok k, record s { purchase_requests = update k as_approved s.purchase_requests }))
          (find-id request_id s.purchase_requests r found))))

-- With the executors of `build_executors`, and neither bus nor memory wired, approving the pending
-- approval of a purchase request marks the request approved and records it as the result; no other
-- table changes.
pub approve_purchase :
    (reservation_service : Option ReservationService) (inventory : InventoryService)
    (service : ApprovalService) (id user request_id : ℕ) (a : Approval) (r : PurchaseRequest)
    (s : Session)
    → service.executors ≡ build_executors reservation_service (some inventory)
    → service.event_bus ≡ none
    → service.memory_service ≡ none
    → find id s.approvals ≡ some a
    → a.status ≡ pending
    → a.domain ≡ "purchase"
    → a.parameters ≡ approve_purchase_request request_id
    → find request_id s.purchase_requests ≡ some r
    → approve service id user s ≡ (
      ok id,
      record s {
        approvals =
            update id
              (with_result (success request_id) s.now)
              (update id (approved_by user s.now) s.approvals);
        purchase_requests = update request_id as_approved s.purchase_requests;
      },
    )
approve_purchase reservation_service inventory service id user request_id a r s wired unheard
      forgotten found open_a domain named requested =
    let granted : find id (update id (approved_by user s.now) s.approvals)
        ≡ some (approved_by user s.now a) =
      find-update_self id (approved_by user s.now) s.approvals a (λ x. refl) found in
    approve_executes service execute_approved_action id user a s unheard forgotten found open_a
      (rw (wired, domain) (unfold build_executors in refl)) request_id _
      (execute_found id request_id (approved_by user s.now a) r
        (record s { approvals = update id (approved_by user s.now) s.approvals }) granted named
        requested)
      granted

-- Consistent approvals, and the purchase requests and items of a given session
abbrev pub StockAs : Session → Session → Type 0
StockAs before s =
    ApprovalsConsistent s
    × ((s.purchase_requests ≡ before.purchase_requests) × (s.items ≡ before.items))

StockAs-local : (before : Session) → IsLocal (StockAs before)
StockAs-local before = record {
  events = λ s es n le h. (ApprovalsConsistent-local.events s es n le h.0, h.1);
  memories = λ s ms n le h. (ApprovalsConsistent-local.memories s ms n le h.0, h.1);
  clock = λ s t n le h. (ApprovalsConsistent-local.clock s t n le h.0, h.1);
}

StockAs-Writes : (before : Session) → Writes (StockAs before)
unfolding insert_approval record_result save
StockAs-Writes before = record {
  inserts = λ p. record { at = λ s h. ((Writes-ApprovalsConsistent.inserts p).at s h.0, h.1) };
  decides = record {
    approves = λ s id user a e pend h.
        (Writes-ApprovalsConsistent.decides.approves s id user a e pend h.0, h.1);
    rejects = λ s id user a e pend h.
        (Writes-ApprovalsConsistent.decides.rejects s id user a e pend h.0, h.1);
    records = λ id result. record {
      at = λ s h. ((Writes-ApprovalsConsistent.decides.records id result).at s h.0, h.1);
    };
  };
  distinct = λ s h. h.0.distinct;
  sweeps = λ s restaurant_id h. (Writes-ApprovalsConsistent.sweeps s restaurant_id h.0, h.1);
}

reject-StockAs :
    (service : ApprovalService) (id user : ℕ) (reason : Option Text) (before : Session)
    → ((bus : EventBus) → service.event_bus ≡ some bus → HandlersKeep (StockAs before) bus)
    → Keeps (StockAs before) (reject service id user reason)
unfolding reject turn_down announce
reject-StockAs service id user reason before handlers =
    reject-Keeps (record service { executors = λ _. none }) (StockAs before) (StockAs-local before)
      (record { executors = λ domain executor e. ground arith; handlers = handlers })
      (StockAs-Writes before).decides id user reason

reported :
    (inventory : InventoryService) (o : Order) (context : ToolContext) (item : InventoryItem)
    (r : PurchaseRequest) (id : ℕ) (s : Session)
    → find o.item_id s.items ≡ some item
    → item.restaurant_id ≡ o.restaurant_id
    → get_open_purchase_request_for_item o.item_id s.purchase_requests ≡ some r
    → r.status ≡ PurchaseStatus.pending_approval
    → r.approval_id ≡ some id
    → create_purchase_request inventory o context s
      ≡ (ok (pending_approval id (already_pending id)), s)
unfolding create_purchase_request get_item_or_raise request_unless
reported inventory o context item r id s e own open_r waits asked =
    let same : (item.restaurant_id == o.restaurant_id) ≡ true = ground (arith, own) in
    rw (e, same) (rw open_r (rw (waits, asked) refl))

-- Rejecting the approval of a purchase request leaves the request as it was: the next purchase
-- request for the item, whatever its quantity, cost and proposer, is answered with the decided
-- approval as if it were pending, and proposes nothing, if the handlers of the rejection's events
-- leave the stock alone.
pub reject_blocks_item :
    (service : ApprovalService) (inventory : InventoryService) (id user : ℕ) (reason : Option Text)
    (o : Order) (context : ToolContext) (item : InventoryItem) (r : PurchaseRequest) (s : Session)
    → ((bus : EventBus) → service.event_bus ≡ some bus → HandlersKeep (StockAs s) bus)
    → ApprovalsConsistent s
    → find o.item_id s.items ≡ some item
    → item.restaurant_id ≡ o.restaurant_id
    → get_open_purchase_request_for_item o.item_id s.purchase_requests ≡ some r
    → r.status ≡ PurchaseStatus.pending_approval
    → r.approval_id ≡ some id
    → let after_reject = (reject service id user reason s).1 in
      create_purchase_request inventory o context after_reject
      ≡ (ok (pending_approval id (already_pending id)), after_reject)
reject_blocks_item service inventory id user reason o context item r s handlers c e own open_r waits
      asked =
    let kept = (reject-StockAs service id user reason s handlers).at s (c, (refl, refl)) in
    reported inventory o context item r id (reject service id user reason s).1 (rw (kept.1.1) e) own
      (rw (kept.1.0) open_r) waits asked
