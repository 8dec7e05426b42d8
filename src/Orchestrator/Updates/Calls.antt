-- ===== src/Orchestrator/Updates/Calls.antt =====
-- The nodes that call a specialist, the approval service and, for the answer, the model.
use restaurant_sahayak.Base.{
  ℕ, zero, suc, ◌+◌, ◌≤◌, ◌≡◌, refl, String, Bool, true, false, Option, none, some, List, [], ◌∷◌,
  arith, if◌then◌else◌,
}
use mathlib.Core.Path.{subst}
use restaurant_sahayak.Exec.{Returns, Returns-bind, Returns-any, lift, pure, ◌>>=◌}
use restaurant_sahayak.Models.{Session, Action}
use restaurant_sahayak.Models.Approvals.{Approval, Decision}
use restaurant_sahayak.Approvals.{ApprovalService, get_row}
use restaurant_sahayak.ToolCalling.{AgentResult, AgentStatus, ToolCallRecord, last, final_text}
use restaurant_sahayak.Orchestrator.State.{GraphState, Invocation, combine_prompt}
use restaurant_sahayak.Orchestrator.Nodes.{
  Orchestrator, Specialist, Answer, Attempted, retry, call_specialist, delegate_to, delegate_next,
  delegate, is_error, resolve_by, resolve_with, await_approval, combine_all, combine, task_for,
  decide_approval, is_waiting, data_of, approval_of, invocation_of, instruction_of, resolution_of,
  with_delegation, with_decision,
}
use restaurant_sahayak.Orchestrator.Updates.{
  approval_in, Pends, waits, goes_on, Delegated, delegated, Resolved, resolved, Combined, combined,
}

-- The loop adds at most the retries that are left.
retry-bounded :
    (left bound : ℕ) (call : Action AgentResult) (a : Attempted) (s : Session)
    → a.attempt + left ≤ bound
    → Returns (λ b. b.attempt ≤ bound) (retry left call a s)
unfolding retry
retry-bounded zero bound call a s h = omega arith
retry-bounded (suc left) bound call a s h =
    repeated (λ r s'. retry-bounded left bound call (again r) s' (omega arith))
      (is_error a.result.status)
  where
    again : AgentResult → Attempted
    again r = record { result = r; attempt = a.attempt + 1 }

    repeated :
        ((r : AgentResult) (s' : Session)
          → Returns (λ b. b.attempt ≤ bound) (retry left call (again r) s'))
        → (b : Bool)
        → Returns
            (λ b. b.attempt ≤ bound)
            ((if b then (call >>= λ r. retry left call (again r)) else pure a) s)
    repeated rest true =
        Returns-bind (λ _. Unit {0}) (λ b. b.attempt ≤ bound) call _ s (Returns-any (call s))
          (λ r s' _. rest r s')
    repeated rest false = omega arith

call_specialist-bounded :
    (retries : ℕ) (call : Action AgentResult) (s : Session)
    → Returns (λ a. a.attempt ≤ suc retries) (call_specialist retries call s)
unfolding call_specialist
call_specialist-bounded retries call s =
    Returns-bind (λ _. Unit {0}) (λ a. a.attempt ≤ suc retries) call _ s (Returns-any (call s))
      (λ r s' _.
        retry-bounded retries (suc retries) call (record { result = r; attempt = 1 }) s'
          (omega arith))

-- What is pending after an invocation
pends :
    (st : GraphState) (i : Invocation)
    → Pends st i
        (if is_waiting i.status then approval_in i.payload else st.pending_approval_id)
        (if is_waiting i.status then some i.agent_name else st.pending_approval_agent)
pends st i = by_status i.status refl
  where
    by_status :
        (x : AgentStatus)
        → i.status ≡ x
        → Pends st i
            (if is_waiting x then approval_in i.payload else st.pending_approval_id)
            (if is_waiting x then some i.agent_name else st.pending_approval_agent)
    by_status AgentStatus.pending_approval e = waits e
    by_status AgentStatus.completed e = goes_on (λ w. absurd (cc (e, w)))
    by_status AgentStatus.error e = goes_on (λ w. absurd (cc (e, w)))

approval_in-data_of : (l : Option ToolCallRecord) → approval_in (data_of l) ≡ approval_of l
approval_in-data_of none = refl
approval_in-data_of (some r) = refl

module _ (o : Orchestrator) (st : GraphState) where
  with_delegation-Delegated :
      (agent_name : String) (a : Attempted)
      → st.next_agent ≡ some agent_name
      → a.attempt ≤ suc o.max_retries_per_agent
      → Delegated o st (with_delegation agent_name a st)
  unfolding with_delegation
  with_delegation-Delegated agent_name a to bounded =
      let i = invocation_of agent_name (instruction_of st) a in
      delegated i (instruction_of st) _ _ to refl bounded (
        subst
          (λ id.
            Pends st i (if is_waiting a.result.status then id else st.pending_approval_id)
              (if is_waiting a.result.status then some agent_name else st.pending_approval_agent))
          (approval_in-data_of (last a.result.tool_calls)) (pends st i))

  with_decision-Resolved :
      (approval_id : ℕ) (decision : Decision) (a : Approval)
      → st.pending_approval_id ≡ some approval_id
      → Resolved st (with_decision approval_id decision a st)
  unfolding with_decision
  with_decision-Resolved approval_id decision a e =
      resolved approval_id (resolution_of approval_id decision a st) e refl refl

  delegate_to-Delegated :
      (agent_name : String) (specialist : Option Specialist) (s : Session)
      → st.next_agent ≡ some agent_name
      → Returns (Delegated o st) (delegate_to o st agent_name specialist s)
  unfolding delegate_to
  delegate_to-Delegated agent_name none s to = tt
  delegate_to-Delegated agent_name (some specialist) s to =
      Returns-bind (λ a. a.attempt ≤ suc o.max_retries_per_agent) (Delegated o st)
        (call_specialist o.max_retries_per_agent (specialist (task_for st))) _ s
        (call_specialist-bounded o.max_retries_per_agent (specialist (task_for st)) s)
        (λ a s' h. with_delegation-Delegated agent_name a to h)

  delegate_next-Delegated :
      (next : Option String) (s : Session)
      → st.next_agent ≡ next
      → Returns (Delegated o st) (delegate_next o st next s)
  unfolding delegate_next
  delegate_next-Delegated none s to = tt
  delegate_next-Delegated (some agent_name) s to =
      delegate_to-Delegated agent_name (o.specialists agent_name) s to

  pub delegate-Delegated : (s : Session) → Returns (Delegated o st) (delegate o st s)
  unfolding delegate
  delegate-Delegated s = delegate_next-Delegated st.next_agent s refl

  resolve_by-Resolved :
      (service : ApprovalService) (decision : Decision) (approval_id : ℕ) (user : Option ℕ)
      (s : Session)
      → st.pending_approval_id ≡ some approval_id
      → Returns (Resolved st) (resolve_by service decision st approval_id user s)
  unfolding resolve_by
  resolve_by-Resolved service decision approval_id none s e = tt
  resolve_by-Resolved service decision approval_id (some user) s e =
      Returns-bind (λ _. Unit {0}) (Resolved st) (decide_approval service approval_id user decision)
        _ s (Returns-any (decide_approval service approval_id user decision s))
        (λ id s' _.
          Returns-bind (λ _. Unit {0}) (Resolved st) (get_row id) _ s' (Returns-any (get_row id s'))
            (λ a s'' _. with_decision-Resolved approval_id decision a e))

  resolve_with-Resolved :
      (answer : Answer) (service : Option ApprovalService) (approval_id : Option ℕ) (s : Session)
      → st.pending_approval_id ≡ approval_id
      → Returns (Resolved st) (resolve_with service answer st approval_id s)
  unfolding resolve_with
  resolve_with-Resolved answer none approval_id s e = tt
  resolve_with-Resolved answer (some service) none s e = tt
  resolve_with-Resolved answer (some service) (some approval_id) s e =
      resolve_by-Resolved service answer.decision approval_id answer.decided_by_user_id s e

  pub await_approval-Resolved :
      (answer : Answer) (s : Session) → Returns (Resolved st) (await_approval o answer st s)
  unfolding await_approval
  await_approval-Resolved answer s =
      resolve_with-Resolved answer o.approval_service st.pending_approval_id s refl

  combine_all-Combined :
      (is : List Invocation) (s : Session) → Returns (Combined st) (combine_all o st is s)
  unfolding combine_all
  combine_all-Combined [] s = combined _
  combine_all-Combined (i ∷ is) s =
      Returns-bind (λ _. Unit {0}) (Combined st)
        (lift (o.generate (combine_prompt st.task (i ∷ is)))) _ s (Returns-any _)
        (λ response s' _. combined (some (final_text response.content)))

  pub combine-Combined : (s : Session) → Returns (Combined st) (combine o st s)
  unfolding combine
  combine-Combined s = combine_all-Combined st.invocations s
