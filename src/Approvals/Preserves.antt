-- ===== src/Approvals/Preserves.antt =====
-- Invariants of the session across the operations of `ApprovalService`, by what the single writes,
-- the executors and the handlers keep.
use restaurant_sahayak.Base.{
  ℕ, ◌≤◌, ◌≡◌, refl, String, Option, none, some, arith, find, Text, Distinct, str_eq, max,
}
use restaurant_sahayak.Errors.{Result, ok, err}
use restaurant_sahayak.Exec.{
  Keeps, Keeps-bind, Keeps-pure, Keeps-try_except, Keeps-when, keeps_rules, begin_nested, after,
  pure, Leaves, Ensures, Keeps-bind_after,
}
use restaurant_sahayak.Models.{Session, Action, rollback}
use restaurant_sahayak.Models.Enums.{pending}
use restaurant_sahayak.Models.Approvals.{
  Approval, ExecutionResult, success, failed, Decision, approval_row,
}
use restaurant_sahayak.Memories.{MemoryService, add_memory}
use restaurant_sahayak.Memories.Preserves.{IgnoresMemories, add_memory-Keeps}
use restaurant_sahayak.Events.{EventBus, publish}
use restaurant_sahayak.Events.Preserves.{IgnoresEvents, HandlersKeep, publish-Keeps_ignoring}
use restaurant_sahayak.Approvals.Expiry.{swept, expire-swept}
use restaurant_sahayak.Approvals.{
  ApprovalService, Executor, get_row, save, approval_event, publish_approval, Proposal,
  insert_approval, create_approval_request, check_pending, require_pending, record_result,
  run_executor, execute, apply_executor, carry_out, turn_down, decision_memory, remember,
  approved_by, rejected_by, announce, approve, reject, expire,
}

-- `P` says nothing of events, memories and the clock, and fresh identities do not disturb it.
pub record IsLocal (P : Session → Type 0) : Type 0 where
  pub events : IgnoresEvents P
  pub memories : IgnoresMemories P
  pub clock : (s : Session) (t n : ℕ) → s.next_id ≤ n → P s → P (record s { now = t; next_id = n })

-- The executors and the handlers that the service was given keep `P`.
pub record PartnersKeep (P : Session → Type 0) (service : ApprovalService) : Type 0 where
  pub executors :
      (domain : String) (executor : Executor)
      → service.executors domain ≡ some executor
      → (id : ℕ) → Keeps P (executor id)
  pub handlers : (bus : EventBus) → service.event_bus ≡ some bus → HandlersKeep P bus

-- The writes of a decision keep `P`: it is written on a pending approval only.
pub record Decides (P : Session → Type 0) : Type 0 where
  pub approves :
      (s : Session) (id user : ℕ) (a : Approval)
      → find id s.approvals ≡ some a
      → a.status ≡ pending
      → P s
      → P (save id (approved_by user s.now) s).1
  pub rejects :
      (s : Session) (id user : ℕ) (a : Approval)
      → find id s.approvals ≡ some a
      → a.status ≡ pending
      → P s
      → P (save id (rejected_by user s.now) s).1
  pub records : (id : ℕ) (result : ExecutionResult) → Keeps P (record_result id result)

-- Each write of the service keeps `P`.
pub record Writes (P : Session → Type 0) : Type 0 where
  pub inserts : (p : Proposal) → Keeps P (insert_approval p)
  pub decides : Decides P
  pub distinct : (s : Session) → P s → Distinct s.approvals
  pub sweeps : (s : Session) (restaurant_id : ℕ) → P s → P (swept restaurant_id s)

module _ (service : ApprovalService) (P : Session → Type 0) (l : IsLocal P)
    (handlers : (bus : EventBus) → service.event_bus ≡ some bus → HandlersKeep P bus) where
  get_row-Keeps : (id : ℕ) → Keeps P (get_row id)
  unfolding get_row
  get_row-Keeps id = record { at = λ s h. ground arith }

  pub publish_approval-Keeps :
      (bus : Option EventBus) (event_type : String) (id : ℕ) (decision : Option Decision)
      → service.event_bus ≡ bus
      → Keeps P (publish_approval bus event_type id decision)
  unfolding publish_approval
  publish_approval-Keeps none event_type id decision e = Keeps-pure P tt
  publish_approval-Keeps (some bus) event_type id decision e =
      Keeps-bind P (get_row id) _ (get_row-Keeps id) λ a.
        Keeps-bind P (publish bus (approval_event event_type a decision)) _
          (publish-Keeps_ignoring P bus l.events (handlers bus e)
            (approval_event event_type a decision))
          λ _. Keeps-pure P tt

  -- A proposal writes one approval and its event.
  pub create-Keeps :
      ((p : Proposal) → Keeps P (insert_approval p))
      → (p : Proposal) → Keeps P (create_approval_request service p)
  unfolding create_approval_request
  create-Keeps inserts p = search (keeps_rules, inserts, publish_approval-Keeps) depth 12

module _ (service : ApprovalService) (P : Session → Type 0) (l : IsLocal P)
    (c : PartnersKeep P service) where
  begin_nested-Keeps : {A : Type 0} (m : Action A) → Keeps P m → Keeps P (begin_nested rollback m)
  begin_nested-Keeps {A} m k = record { at = λ s h. ended s h (m s) (k.at s h) }
    where
      ended :
          (s : Session)
          → P s
          → (out : Result A × Session) → P out.1
          → P (after pure (λ e s'. (err e, rollback s s')) out).1
      ended s h (ok a, s') h' = h'
      ended s h (err e, s') h' = l.clock s s'.now (max s.next_id s'.next_id) (omega arith) h

  remember-Keeps :
      (memories : Option MemoryService) (id : ℕ) (text : Option Text)
      → Keeps P (remember memories id text)
  unfolding remember
  remember-Keeps none id text = Keeps-pure P tt
  remember-Keeps (some memories) id text =
      Keeps-bind P (get_row id) _ (get_row-Keeps service P l c.handlers id) λ a.
        Keeps-try_except P (begin_nested rollback (add_memory memories (decision_memory a text))) _
          _
          (begin_nested-Keeps (add_memory memories (decision_memory a text))
            (add_memory-Keeps P l.memories memories (decision_memory a text)))
          (λ _. Keeps-pure P tt) (λ _. Keeps-pure P tt)

  announce-Keeps :
      (id : ℕ) (event_type : String) (decision : Decision)
      → Keeps P (announce service id event_type decision)
  unfolding announce
  announce-Keeps id event_type decision =
      Keeps-bind P (get_row id) _ (get_row-Keeps service P l c.handlers id) λ a.
        Keeps-bind P _ _
          (Keeps-when P (str_eq a.domain "purchase") _ (
            publish_approval-Keeps service P l c.handlers service.event_bus event_type id none
              refl))
          λ _.
            publish_approval-Keeps service P l c.handlers service.event_bus "approval.completed" id
              (some decision) refl

  module _ (w : Decides P) where
    run_executor-Keeps :
        (id : ℕ) (executor : Executor) → Keeps P (executor id) → Keeps P (run_executor id executor)
    unfolding run_executor
    run_executor-Keeps id executor k =
        Keeps-try_except P (begin_nested rollback (executor id)) _ _
          (begin_nested-Keeps (executor id) k) (λ r. w.records id (success r))
          (λ e. w.records id (failed e))

    apply_executor-Keeps :
        (domain : String) (id : ℕ) (executor : Option Executor)
        → service.executors domain ≡ executor
        → Keeps P (apply_executor id executor)
    unfolding apply_executor
    apply_executor-Keeps domain id none e = Keeps-pure P tt
    apply_executor-Keeps domain id (some executor) e =
        run_executor-Keeps id executor (c.executors domain executor e id)

    execute-Keeps : (id : ℕ) → Keeps P (execute service id)
    unfolding execute
    execute-Keeps id =
        Keeps-bind P (get_row id) _ (get_row-Keeps service P l c.handlers id)
          λ a. apply_executor-Keeps a.domain id (service.executors a.domain) refl

    carry_out-Keeps : (id : ℕ) → Keeps P (carry_out service id)
    unfolding carry_out
    carry_out-Keeps id = search (keeps_rules, execute-Keeps, remember-Keeps, announce-Keeps)

    turn_down-Keeps : (id : ℕ) (reason : Option Text) → Keeps P (turn_down service id reason)
    unfolding turn_down
    turn_down-Keeps id reason = search (keeps_rules, remember-Keeps, announce-Keeps)

    -- The row that the guard lets through.
    abbrev Guarded : ℕ → Approval → Session → Type 0
    Guarded id a s = (find id s.approvals ≡ some a) × (a.status ≡ pending)

    check_pending-Guarded :
        (id : ℕ) (found : Option Approval) (s : Session)
        → find id s.approvals ≡ found
        → P s
        → Leaves P (Guarded id) (check_pending id found s)
    unfolding check_pending
    check_pending-Guarded id none s e h = h
    check_pending-Guarded id (some a) s e h = ground arith

    require_pending-Guarded : (id : ℕ) → Ensures P (Guarded id) (require_pending id)
    unfolding require_pending
    require_pending-Guarded id = record {
      at = λ s h. check_pending-Guarded id (find id s.approvals) s refl h;
    }

    pub approve-Keeps : (id user : ℕ) → Keeps P (approve service id user)
    unfolding approve save
    approve-Keeps id user =
        Keeps-bind_after P (Guarded id) (require_pending id) _ (require_pending-Guarded id)
          λ a s h g. (carry_out-Keeps id).at _ (w.approves s id user a g.0 g.1 h)

    pub reject-Keeps :
        (id user : ℕ) (reason : Option Text) → Keeps P (reject service id user reason)
    unfolding reject save
    reject-Keeps id user reason =
        Keeps-bind_after P (Guarded id) (require_pending id) _ (require_pending-Guarded id)
          λ a s h g. (turn_down-Keeps id reason).at _ (w.rejects s id user a g.0 g.1 h)

  pub expire-Keeps : Writes P → (restaurant_id : ℕ) → Keeps P (expire restaurant_id)
  expire-Keeps w restaurant_id = record {
    at = λ s h. rw (expire-swept restaurant_id s (w.distinct s h)) (w.sweeps s restaurant_id h);
  }
