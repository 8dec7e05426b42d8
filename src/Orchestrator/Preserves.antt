-- ===== src/Orchestrator/Preserves.antt =====
-- Invariants of the session across a walk of the orchestrator: what its specialists and the
-- decisions of the approval service keep.
use restaurant_sahayak.Base.{
  ℕ, zero, suc, ◌+◌, ◌≡◌, refl, String, Bool, true, false, Option, none, some, List, [], ◌∷◌, arith,
  if◌then◌else◌,
}
use restaurant_sahayak.Errors.{Result}
use restaurant_sahayak.Exec.{
  Keeps, Keeps-bind, Keeps-pure, Keeps-throw, Keeps-gets, keeps_rules, pure, lift, ◌>>=◌,
}
use restaurant_sahayak.Models.{Session, Action, utcnow}
use restaurant_sahayak.Models.Approvals.{Decision, approval_row}
use restaurant_sahayak.Models.Runs.{agent_run_row}
use restaurant_sahayak.Approvals.{ApprovalService, get_row}
use restaurant_sahayak.ToolCalling.{AgentResult, Task}
use restaurant_sahayak.Orchestrator.State.{GraphState, Invocation}
use restaurant_sahayak.Orchestrator.Nodes
use restaurant_sahayak.Orchestrator.Nodes.{
  Orchestrator, Specialist, Answer, Attempted, retry, call_specialist, delegate_to, delegate_next,
  with_delegation, is_error, ask_model, stop, decide_approval, resolve_by, resolve_with,
  combine_all, with_decision, task_for,
}
use restaurant_sahayak.Orchestrator.Graph.{
  Node, identify_scope, decide, delegate, await_approval, combine, done, interrupted, walk, visit,
  go_to, route, route_after_decide, route_after_delegate,
}
use restaurant_sahayak.Orchestrator.Service.{checkpoint_row}

-- The specialists keep `P`.
abbrev pub SpecialistsKeep : (Session → Type 0) → Orchestrator → Type 0
SpecialistsKeep P o =
    (name : String) (specialist : Specialist)
    → o.specialists name ≡ some specialist
    → (t : Task) → Keeps P (specialist t)

-- The specialists keep `P`, and so do the decisions of the approval service.
pub record ServicesKeep (P : Session → Type 0) (o : Orchestrator) : Type 0 where
  pub specialists : SpecialistsKeep P o
  pub decisions :
      (service : ApprovalService)
      → o.approval_service ≡ some service
      → (id user : ℕ) (decision : Decision) → Keeps P (decide_approval service id user decision)

module _ (P : Session → Type 0) (o : Orchestrator) (specialists : SpecialistsKeep P o) where
  lift-Keeps : {A : Type 0} (r : Result A) → Keeps P (lift r)
  lift-Keeps r = record { at = λ s h. h }

  identify_scope-Keeps : (st : GraphState) → Keeps P (Nodes.identify_scope o st)
  unfolding Nodes.identify_scope
  identify_scope-Keeps st = search (keeps_rules, lift-Keeps)

  ask_model-Keeps : (st : GraphState) → Keeps P (ask_model o st)
  unfolding ask_model
  ask_model-Keeps st = Keeps-bind P utcnow _ (Keeps-gets P (λ s. s.now)) λ now.
      Keeps-bind P (lift (o.generate _)) _ (lift-Keeps (o.generate _)) λ response. Keeps-pure P _

  decide-Keeps : (st : GraphState) → Keeps P (Nodes.decide o st)
  unfolding Nodes.decide
  decide-Keeps st = ground (arith, ask_model-Keeps st, Keeps-pure P (stop st))

  retry-Keeps :
      (left : ℕ) (call : Action AgentResult) (a : Attempted)
      → Keeps P call
      → Keeps P (retry left call a)
  unfolding retry
  retry-Keeps zero call a c = Keeps-pure P a
  retry-Keeps (suc left) call a c =
      repeated (λ r. retry-Keeps left call (record { result = r; attempt = a.attempt + 1 }) c)
        (is_error a.result.status)
    where
      repeated :
          ((r : AgentResult)
            → Keeps P (retry left call (record { result = r; attempt = a.attempt + 1 })))
          → (b : Bool)
          → Keeps P (
              if b
              then (call >>= λ r. retry left call (record { result = r; attempt = a.attempt + 1 }))
              else pure a)
      repeated rest true = Keeps-bind P call _ c rest
      repeated rest false = Keeps-pure P a

  call_specialist-Keeps :
      (retries : ℕ) (call : Action AgentResult)
      → Keeps P call
      → Keeps P (call_specialist retries call)
  unfolding call_specialist
  call_specialist-Keeps retries call c =
      Keeps-bind P call _ c λ r. retry-Keeps retries call (record { result = r; attempt = 1 }) c

  delegate_to-Keeps :
      (st : GraphState) (agent_name : String) (specialist : Option Specialist)
      → o.specialists agent_name ≡ specialist
      → Keeps P (delegate_to o st agent_name specialist)
  unfolding delegate_to
  delegate_to-Keeps st agent_name none e = Keeps-throw P _
  delegate_to-Keeps st agent_name (some specialist) e =
      Keeps-bind P (call_specialist o.max_retries_per_agent (specialist (task_for st))) _
        (call_specialist-Keeps o.max_retries_per_agent (specialist (task_for st))
          (specialists agent_name specialist e (task_for st)))
        λ a. Keeps-pure P (with_delegation agent_name a st)

  delegate_next-Keeps : (st : GraphState) (name : Option String) → Keeps P (delegate_next o st name)
  unfolding delegate_next
  delegate_next-Keeps st none = Keeps-throw P _
  delegate_next-Keeps st (some name) = delegate_to-Keeps st name (o.specialists name) refl

  combine_all-Keeps : (st : GraphState) (is : List Invocation) → Keeps P (combine_all o st is)
  unfolding combine_all
  combine_all-Keeps st [] = Keeps-pure P _
  combine_all-Keeps st (i ∷ is) =
      Keeps-bind P (lift (o.generate _)) _ (lift-Keeps (o.generate _)) λ response. Keeps-pure P _

  -- The walk keeps what the specialists keep, whether it returns or raises.
  pub walk-Keeps : (left : ℕ) (node : Node) (st : GraphState) → Keeps P (walk o left node st)
  unfolding walk visit go_to route Nodes.delegate Nodes.combine
  walk-Keeps zero node st = Keeps-throw P _
  walk-Keeps (suc left) identify_scope st =
      Keeps-bind P (Nodes.identify_scope o st) _ (identify_scope-Keeps st)
        λ u. walk-Keeps left decide u
  walk-Keeps (suc left) decide st =
      Keeps-bind P (Nodes.decide o st) _ (decide-Keeps st)
        λ u. walk-Keeps left (route_after_decide u) u
  walk-Keeps (suc left) delegate st =
      Keeps-bind P (Nodes.delegate o st) _ (delegate_next-Keeps st st.next_agent)
        λ u. walk-Keeps left (route_after_delegate u) u
  walk-Keeps (suc left) await_approval st = Keeps-pure P (interrupted st)
  walk-Keeps (suc left) combine st =
      Keeps-bind P (Nodes.combine o st) _ (combine_all-Keeps st st.invocations)
        λ u. Keeps-pure P (done u)

module _ (P : Session → Type 0) (o : Orchestrator) (services : ServicesKeep P o) where
  get_row-Keeps : (id : ℕ) → Keeps P (get_row id)
  unfolding get_row
  get_row-Keeps id = record { at = λ s h. ground arith }

  resolve_by-Keeps :
      (service : ApprovalService) (decision : Decision) (st : GraphState) (approval_id : ℕ)
      (user : Option ℕ)
      → o.approval_service ≡ some service
      → Keeps P (resolve_by service decision st approval_id user)
  unfolding resolve_by
  resolve_by-Keeps service decision st approval_id none e = Keeps-throw P _
  resolve_by-Keeps service decision st approval_id (some user) e =
      Keeps-bind P (decide_approval service approval_id user decision) _
        (services.decisions service e approval_id user decision)
        λ id.
          Keeps-bind P (get_row id) _ (get_row-Keeps id)
            λ a. Keeps-pure P (with_decision approval_id decision a st)

  resolve_with-Keeps :
      (service : Option ApprovalService) (answer : Answer) (st : GraphState) (id : Option ℕ)
      → o.approval_service ≡ service
      → Keeps P (resolve_with service answer st id)
  unfolding resolve_with
  resolve_with-Keeps none answer st id e = Keeps-throw P _
  resolve_with-Keeps (some service) answer st none e = Keeps-throw P _
  resolve_with-Keeps (some service) answer st (some id) e =
      resolve_by-Keeps service answer.decision st id answer.decided_by_user_id e

  pub await_approval-Keeps :
      (answer : Answer) (st : GraphState) → Keeps P (Nodes.await_approval o answer st)
  unfolding Nodes.await_approval
  await_approval-Keeps answer st =
      resolve_with-Keeps o.approval_service answer st st.pending_approval_id refl
