-- ===== src/Approvals.antt =====
-- The approval gate (app/services/approval_service.py) and its repository
-- (app/repositories/approval_repo.py). An executor is a parameter here, any action on the
-- approval's row. Telemetry is left out.
pub mod Preserves
pub mod Consistency
pub mod Expiry
pub mod Requests
pub mod Terminal
pub mod Outcomes
use restaurant_sahayak.Base.{
  ℕ, ◌+◌, String, Bool, true, false, not, ◌&&◌, ◌==◌, str_eq, Option, none, some, List, [], ◌∷◌,
  ◌++◌, Text, truthy, select, map, find, update, ltb, leb, if◌then◌else◌,
}
use restaurant_sahayak.Base.Int.{pos}
use restaurant_sahayak.Errors.{
  other, invalid_domain, invalid_risk_level, low_risk_does_not_require_approval, approval_not_found,
  approval_expired, approval_already_decided,
}
use restaurant_sahayak.Exec.{
  pure, throw, raise, gets, modify, raise_if, when, require, try_except, begin_nested, ◌>>=◌, ◌>>◌,
}
use restaurant_sahayak.Models.{Session, Action, rollback, utcnow}
use restaurant_sahayak.Models.Enums.{ApprovalStatus, is_pending, is_expired}
use restaurant_sahayak.Models.Approvals.{
  Approval, Reason, Parameters, ExecutionResult, Decision, Payload, approval_info, approval_domains,
  approval_risk_levels, is_in, approval_row,
}
use restaurant_sahayak.Models.Memories.{Content, past_decision, approval_topic}
use restaurant_sahayak.Memories.{MemoryService, NewMemory, add_memory}
use restaurant_sahayak.Events.{EventBus, Publication, publish}

-- `Executor`: applies the approved action of the row and returns the row that it wrote.
abbrev pub Executor : Type 0
Executor = ℕ → Action ℕ

-- `ApprovalService`, with its optional collaborators
pub record ApprovalService : Type 0 where
  pub executors : String → Option Executor
  pub memory_service : Option MemoryService
  pub event_bus : Option EventBus

-- The row behind an `Approval` object; no code deletes one.
unfoldable pub get_row : ℕ → Action Approval
get_row id s = elim (find id s.approvals) [
  | none ↦ throw (other "ObjectDeletedError") s
  | some a ↦ pure a s
]

-- Assignments to the object, and `repo.save`
unfoldable pub save : ℕ → (Approval → Approval) → Action (Unit {0})
save id f s = pure tt (record s { approvals = update id f s.approvals })

-- The `Publication` of `_publish`
abbrev pub approval_event : String → Approval → Option Decision → Publication
approval_event event_type a decision = record {
  event_type = event_type;
  restaurant_id = a.restaurant_id;
  entity_id = some a.id;
  payload = approval_info a.id a.domain a.action a.risk_level a.status decision;
  published_by = "approval_service";
  correlation_id = some a.proposed_by_agent_run_id;
  idempotency_key = none;
}

-- `_publish`
unfoldable pub publish_approval : Option EventBus → String → ℕ → Option Decision → Action (Unit {0})
publish_approval none event_type id decision = pure tt
publish_approval (some bus) event_type id decision = do
  a ← get_row id
  publish bus (approval_event event_type a decision)
  pure tt

-- The arguments of `create_approval_request`
pub record Proposal : Type 0 where
  pub restaurant_id : ℕ
  pub domain : String
  pub action : String
  pub agent_name : String
  pub proposed_by_agent_run_id : ℕ
  pub parameters : Parameters
  pub reason : Reason
  pub risk_level : String
  pub expires_at : Option ℕ

-- The row that `repo.create` inserts
abbrev pub new_approval : Proposal → Session → Approval
new_approval p s = record {
  id = s.next_id;
  restaurant_id = p.restaurant_id;
  domain = p.domain;
  action = p.action;
  agent_name = p.agent_name;
  proposed_by_agent_run_id = p.proposed_by_agent_run_id;
  reason = p.reason;
  parameters = p.parameters;
  risk_level = p.risk_level;
  status = ApprovalStatus.pending;
  decided_by_user_id = none;
  approved_at = none;
  rejected_at = none;
  expires_at = p.expires_at;
  created_at = s.now;
  execution_result = none;
  executed_at = none;
}

unfoldable pub insert_approval : Proposal → Action ℕ
insert_approval p s =
    pure s.next_id
      (record s { approvals = s.approvals ++ new_approval p s ∷ []; next_id = s.next_id + 1 })

-- `create_approval_request`
unfoldable pub create_approval_request : ApprovalService → Proposal → Action ℕ
create_approval_request service p = do
  raise_if (not (is_in p.domain approval_domains)) (invalid_domain p.domain)
  raise_if (not (is_in p.risk_level approval_risk_levels)) (invalid_risk_level p.risk_level)
  raise_if (str_eq p.risk_level "LOW") low_risk_does_not_require_approval
  id ← insert_approval p
  publish_approval service.event_bus "approval.created" id none
  pure id

-- `_require_pending`, on the row that was found
unfoldable pub check_pending : ℕ → Option Approval → Action Approval
check_pending id none = raise (approval_not_found id)
check_pending id (some a) =
    if is_expired a.status
    then raise (approval_expired id)
    else if is_pending a.status
    then pure a
    else raise (approval_already_decided id a.status)

-- `_require_pending`
unfoldable pub require_pending : ℕ → Action Approval
require_pending id s = check_pending id (find id s.approvals) s

abbrev pub with_result : ExecutionResult → ℕ → Approval → Approval
with_result result now a = record a { execution_result = some result; executed_at = some now }

unfoldable pub record_result : ℕ → ExecutionResult → Action (Unit {0})
record_result id result = do now ← utcnow; save id (with_result result now)

-- The executor in its SAVEPOINT, and the record of how it ended
unfoldable pub run_executor : ℕ → Executor → Action (Unit {0})
run_executor id executor =
    try_except (begin_nested rollback (executor id))
      (λ r. record_result id (ExecutionResult.success r))
      (λ e. record_result id (ExecutionResult.failed e))

-- `_execute`: a domain with no executor is left to a manual call.
unfoldable pub apply_executor : ℕ → Option Executor → Action (Unit {0})
apply_executor id none = pure tt
apply_executor id (some executor) = run_executor id executor

unfoldable pub execute : ApprovalService → ℕ → Action (Unit {0})
execute service id = do a ← get_row id; apply_executor id (service.executors a.domain)

-- A `note` is added where it is not empty.
abbrev pub truthy_note : Option Text → Option Text
truthy_note none = none
truthy_note (some note) = if truthy note then some note else none

-- The memory of a decision
abbrev pub decision_memory : Approval → Option Text → NewMemory
decision_memory a note = record {
  restaurant_id = a.restaurant_id;
  memory_type = "PAST_DECISION";
  topic = approval_topic a.id;
  content = record {
    text = some (
        past_decision a.agent_name a.reason a.risk_level a.status a.execution_result
          (truthy_note note));
    other_keys = [];
  };
  source = "manager_stated";
  importance = if str_eq a.risk_level "HIGH" then pos 5 else pos 3;
  confidence = pos 1000000;
  customer_id = none;
  agent_name = some a.agent_name;
  source_agent_run_id = some a.proposed_by_agent_run_id;
}

-- `_remember`: a failure is logged and undone.
unfoldable pub remember : Option MemoryService → ℕ → Option Text → Action (Unit {0})
remember none id _ = pure tt
remember (some memories) id note = do
  a ← get_row id
  try_except (begin_nested rollback (add_memory memories (decision_memory a note))) (λ _. pure tt)
      (λ _. pure tt)

abbrev pub approved_by : ℕ → ℕ → Approval → Approval
approved_by user now a = record a {
  status = ApprovalStatus.approved;
  decided_by_user_id = some user;
  approved_at = some now;
}

abbrev pub rejected_by : ℕ → ℕ → Approval → Approval
rejected_by user now a = record a {
  status = ApprovalStatus.rejected;
  decided_by_user_id = some user;
  rejected_at = some now;
}

-- The events at the end of `approve` and `reject`
unfoldable pub announce : ApprovalService → ℕ → String → Decision → Action (Unit {0})
announce service id purchase_event decision = do
  a ← get_row id
  when (str_eq a.domain "purchase") (publish_approval service.event_bus purchase_event id none)
  publish_approval service.event_bus "approval.completed" id (some decision)

-- What follows the decision of `approve`
unfoldable pub carry_out : ApprovalService → ℕ → Action ℕ
carry_out service id = do
  execute service id
  remember service.memory_service id none
  announce service id "purchase.approved" Decision.approved
  pure id

-- `approve`
unfoldable pub approve : ApprovalService → ℕ → ℕ → Action ℕ
approve service id user = do
  require_pending id
  now ← utcnow
  save id (approved_by user now)
  carry_out service id

-- What follows the decision of `reject`
unfoldable pub turn_down : ApprovalService → ℕ → Option Text → Action ℕ
turn_down service id reason = do
  remember service.memory_service id reason
  announce service id "purchase.rejected" Decision.rejected
  pure id

-- `reject`
unfoldable pub reject : ApprovalService → ℕ → ℕ → Option Text → Action ℕ
reject service id user reason = do
  require_pending id
  now ← utcnow
  save id (rejected_by user now)
  turn_down service id reason

-- The WHERE clause of `list_overdue`
unfoldable pub is_overdue : ℕ → ℕ → Approval → Bool
is_overdue restaurant_id as_of a =
    a.restaurant_id == restaurant_id
    && is_pending a.status
    && elim a.expires_at [ none ↦ false | some t ↦ ltb t as_of ]

abbrev pub mark_expired : Approval → Approval
mark_expired a = record a { status = ApprovalStatus.expired }

-- The `for` loop of `expire`
pub expire_all : List Approval → Action (Unit {0})
expire_all [] = pure tt
expire_all (a ∷ rest) = do save a.id mark_expired; expire_all rest

-- `expire`
unfoldable pub expire : ℕ → Action (List ℕ)
expire restaurant_id = do
  now ← utcnow
  overdue ← gets (λ s. select (is_overdue restaurant_id now) s.approvals)
  expire_all overdue
  pure (map (λ a. a.id) overdue)
