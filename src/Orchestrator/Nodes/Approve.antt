-- ===== src/Orchestrator/Nodes/Approve.antt =====
-- The node behind the pause: the decision goes through the approval service.
use restaurant_sahayak.Base.{ℕ, String, str_eq, Option, none, some, [], ◌∷◌, ◌++◌, if◌then◌else◌}
use restaurant_sahayak.Errors.{other, decided_by_user_id_required}
use restaurant_sahayak.Exec.{pure, throw, raise, ◌>>=◌}
use restaurant_sahayak.Models.{Action}
use restaurant_sahayak.Models.Approvals.{Approval, Decision, approved, rejected, ExecutionResult}
use restaurant_sahayak.Approvals.{ApprovalService, approve, reject, get_row}
use restaurant_sahayak.ToolCalling.{AgentStatus}
use restaurant_sahayak.Orchestrator.State.{
  resolve_approval, decided, InvocationData, no_data, execution, Invocation, GraphState,
}
use restaurant_sahayak.Orchestrator.Nodes.Agent.{Orchestrator}

-- What `resume` passes in
pub record Answer : Type 0 where
  pub decision : Decision
  pub decided_by_user_id : Option ℕ

-- `"error" if execution_status == "failed" else "completed"`; a rejection is "completed".
abbrev pub status_of_decision : Decision → Option ExecutionResult → AgentStatus
status_of_decision approved (some (ExecutionResult.failed e)) = AgentStatus.error
status_of_decision _ _ = AgentStatus.completed

abbrev pub execution_data : Option ExecutionResult → InvocationData
execution_data none = no_data
execution_data (some r) = execution r

-- `state["pending_approval_agent"] or self.name`
abbrev pub agent_or_self : Option String → String
agent_or_self none = "orchestrator"
agent_or_self (some name) = if str_eq name "" then "orchestrator" else name

-- The invocation that reports a decision, with the row of the decided approval
abbrev pub resolution_of : ℕ → Decision → Approval → GraphState → Invocation
resolution_of approval_id decision a st = record {
  agent_name = agent_or_self st.pending_approval_agent;
  task = resolve_approval approval_id;
  status = status_of_decision decision a.execution_result;
  summary = decided decision a.reason a.execution_result;
  payload = execution_data a.execution_result;
  attempt = 1;
}

-- The update of `_await_approval_node`
unfoldable pub with_decision : ℕ → Decision → Approval → GraphState → GraphState
with_decision approval_id decision a st = record st {
  invocations = st.invocations ++ resolution_of approval_id decision a st ∷ [];
  pending_approval_id = none;
  pending_approval_agent = none;
}

-- The call of `approve` or `reject`
unfoldable pub decide_approval : ApprovalService → ℕ → ℕ → Decision → Action ℕ
decide_approval service approval_id user approved = approve service approval_id user
decide_approval service approval_id user rejected = reject service approval_id user none

unfoldable pub resolve_by :
    ApprovalService → Decision → GraphState → ℕ → Option ℕ → Action GraphState
resolve_by service decision st approval_id none = raise decided_by_user_id_required
resolve_by service decision st approval_id (some user) = do
  id ← decide_approval service approval_id user decision
  a ← get_row id
  pure (with_decision approval_id decision a st)

unfoldable pub resolve_with :
    Option ApprovalService → Answer → GraphState → Option ℕ → Action GraphState
resolve_with none answer st approval_id = throw (other "RuntimeError")
resolve_with (some service) answer st none = throw (other "TypeError")
resolve_with (some service) answer st (some approval_id) =
    resolve_by service answer.decision st approval_id answer.decided_by_user_id

-- `_await_approval_node` from its `interrupt` on
unfoldable pub await_approval : Orchestrator → Answer → GraphState → Action GraphState
await_approval o answer st = resolve_with o.approval_service answer st st.pending_approval_id
