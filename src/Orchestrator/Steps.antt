-- ===== src/Orchestrator/Steps.antt =====
-- The orchestrator as an abstract machine: what each node may do to the state, with no word on the
-- model, the specialists or the session, and what holds in every state that it can reach. Between
-- two steps the session may change in any way.
pub mod Holds
use restaurant_sahayak.Base.{
  String, ℕ, suc, ◌+◌, ◌≤◌, ◌≡◌, ◌≢◌, true, false, is_some, Option, none, some, List, [], ◌∷◌, ◌++◌,
  All, if◌then◌else◌,
}
use restaurant_sahayak.Orchestrator.State.{
  InvocationTask, instructed, resolve_approval, Invocation, GraphState,
}
use restaurant_sahayak.Orchestrator.Nodes.{Orchestrator, is_waiting}
use restaurant_sahayak.Orchestrator.Graph.{
  Node, identify_scope, decide, delegate, await_approval, combine,
}
use restaurant_sahayak.Orchestrator.Updates.{
  approval_in, AreNamed, IsCovered, Scoped, Decided, Delegated, Resolved, Combined,
}

-- Where the machine goes from a decision: to the named specialist, and else to the answer.
pub data AfterDecide (u : GraphState) : Node → Type 0 where
  over : u.finished ≡ true → AfterDecide u combine
  unset : u.next_agent ≡ none → AfterDecide u combine
  unnamed : u.next_agent ≡ some "" → AfterDecide u combine
  addressed :
      (name : String)
      → u.finished ≡ false
      → u.next_agent ≡ some name
      → name ≢ ""
      → AfterDecide u delegate

-- Where the machine goes from a delegation: to the pause while an approval is pending, else to the
-- answer once the budget is spent, else to the next decision.
pub data AfterDelegate (u : GraphState) : Node → Type 0 where
  waiting_for : (id : ℕ) → u.pending_approval_id ≡ some id → AfterDelegate u await_approval
  spent : u.pending_approval_id ≡ none → u.remaining_steps ≡ 0 → AfterDelegate u combine
  left_over : u.pending_approval_id ≡ none → u.remaining_steps ≢ 0 → AfterDelegate u decide

-- A step from a node to the next; `none` is the end.
pub data Step (o : Orchestrator)
    : Option Node → GraphState → Option Node → GraphState → Type 0 where
  scoping : {st u : GraphState} → Scoped st u → Step o (some identify_scope) st (some decide) u
  deciding :
      {st u : GraphState} {node : Node}
      → Decided st u
      → AfterDecide u node
      → Step o (some decide) st (some node) u
  delegating :
      {st u : GraphState} {node : Node}
      → Delegated o st u
      → AfterDelegate u node
      → Step o (some delegate) st (some node) u
  resuming : {st u : GraphState} → Resolved st u → Step o (some await_approval) st (some decide) u
  combining : {st u : GraphState} → Combined st u → Step o (some combine) st none u

-- What a run reaches that starts in front of a node
pub data Reach (o : Orchestrator) (origin : Option Node) (start : GraphState)
    : Option Node → GraphState → Type 0 where
  here : Reach o origin start origin start
  next :
      {n m : Option Node} {st u : GraphState}
      → Reach o origin start n st
      → Step o n st m u
      → Reach o origin start m u

-- The delegations among the invocations; the others are resolved approvals.
abbrev pub delegation_count : InvocationTask → ℕ
delegation_count (instructed _) = 1
delegation_count (resolve_approval _) = 0

abbrev pub delegations : List Invocation → ℕ
delegations [] = 0
delegations (i ∷ is) = delegation_count i.task + delegations is

abbrev pub option_list : Option ℕ → List ℕ
option_list none = []
option_list (some n) = n ∷ []

-- The approval that an invocation ended in waiting for (its status is "pending_approval"), and the
-- approval that one resolves
abbrev pub awaited_by : InvocationTask → Invocation → List ℕ
awaited_by (instructed _) i =
    if is_waiting i.status then option_list (approval_in i.payload) else []
awaited_by (resolve_approval _) i = []

abbrev pub resolved_by : InvocationTask → List ℕ
resolved_by (instructed _) = []
resolved_by (resolve_approval id) = id ∷ []

abbrev pub awaited_approvals : List Invocation → List ℕ
awaited_approvals [] = []
awaited_approvals (i ∷ is) = awaited_by i.task i ++ awaited_approvals is

abbrev pub resolved_approvals : List Invocation → List ℕ
resolved_approvals [] = []
resolved_approvals (i ∷ is) = resolved_by i.task ++ resolved_approvals is

-- What holds in every reachable state: each delegation is paid for by a step of the budget, makes
-- at most one call more than the retries, and the approvals that delegations ended in waiting for
-- are those resolved, in this order, and the pending one.
pub record Sound (o : Orchestrator) (st : GraphState) : Type 0 where
  pub budget : delegations st.invocations + st.remaining_steps ≡ o.max_delegations
  pub attempts : All (λ i. i.attempt ≤ suc o.max_retries_per_agent) st.invocations
  pub approvals :
      awaited_approvals st.invocations
      ≡ resolved_approvals st.invocations ++ option_list st.pending_approval_id
  pub named : AreNamed st.required_domains

-- What holds besides in front of a node, and at the end
abbrev pub Fits : Option Node → GraphState → Type 0
Fits (some identify_scope) st = st.pending_approval_id ≡ none
Fits (some decide) st = st.pending_approval_id ≡ none
Fits (some delegate) st = (st.pending_approval_id ≡ none) × (st.remaining_steps ≢ 0)
Fits (some await_approval) st = is_some st.pending_approval_id ≡ true
Fits (some combine) st = (st.pending_approval_id ≡ none) × IsCovered st
Fits none st = (st.pending_approval_id ≡ none) × IsCovered st
