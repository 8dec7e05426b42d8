-- ===== src/Orchestrator/Walks.antt =====
-- The walk through the orchestrator's graph implements the abstract machine of `Steps`, and ends
-- within the recursion limit.
use restaurant_sahayak.Base.{
  ℕ, zero, suc, ◌+◌, ◌-◌, ◌*◌, ◌≤◌, ◌<◌, ◌≡◌, refl, ◌==◌, Option, none, some, arith, Bool, true,
  false, not, is_some, if◌then◌else◌, String, str_eq, eq_iff, ap, ◌∙◌, ◌||◌, Bool-cases, inl, inr,
  [], ◌∷◌, ◌++◌,
}
use restaurant_sahayak.Orchestrator.Graph.{is_named}
use restaurant_sahayak.Errors.{Result, ok, err}
use restaurant_sahayak.Exec.{Returns, Returns-bind, after, throw, ◌>>=◌}
use restaurant_sahayak.Models.{Session, Action}
use restaurant_sahayak.Orchestrator.State.{GraphState}
use restaurant_sahayak.Orchestrator.Nodes
use restaurant_sahayak.Orchestrator.Nodes.{Orchestrator, Answer, with_delegation, stop, send}
use restaurant_sahayak.Orchestrator.Graph.{
  Node, identify_scope, decide, delegate, await_approval, combine, route, route_after_decide,
  route_after_delegate, GraphOutcome, done, interrupted, Walk, go_to, visit, walk,
}
use restaurant_sahayak.Orchestrator.Updates.{
  Scoped, scoped, Decided, stopped, sent, Delegated, delegated,
}
use restaurant_sahayak.Orchestrator.Updates.Decisions.{identify_scope-Scoped, decide-Decided}
use restaurant_sahayak.Orchestrator.Updates.Calls.{delegate-Delegated, combine-Combined}
use restaurant_sahayak.Orchestrator.Steps.{
  AfterDecide, over, unset, unnamed, addressed, AfterDelegate, waiting_for, spent, left_over,
  scoping, deciding, delegating, combining, Reach, next,
}

route_after_decide-AfterDecide : (u : GraphState) → AfterDecide u (route_after_decide u)
unfolding route_after_decide
route_after_decide-AfterDecide u = by_agent u.finished u.next_agent refl refl
  where
    by_agent :
        (b : Bool) (next_agent : Option String)
        → u.finished ≡ b
        → u.next_agent ≡ next_agent
        → AfterDecide u (if b || not (is_named next_agent) then combine else delegate)
    by_agent true next_agent e f = over e
    by_agent false none e f = unset f
    by_agent false (some name) e f = elim (Bool-cases (str_eq name "")) [
      | inl same ↦
          let empty : name ≡ "" = ground (arith, same, eq_iff name "") in
          rw same (unnamed (f ∙ ap some empty))
      | inr other ↦
          rw other
            (addressed name e f (λ same. absurd (ground (arith, same, other, eq_iff name ""))))
    ]

route_after_delegate-AfterDelegate : (u : GraphState) → AfterDelegate u (route_after_delegate u)
unfolding route_after_delegate
route_after_delegate-AfterDelegate u =
    routed u.pending_approval_id (u.remaining_steps == 0) refl refl
  where
    routed :
        (p : Option ℕ) (b : Bool)
        → u.pending_approval_id ≡ p
        → (u.remaining_steps == 0) ≡ b
        → AfterDelegate u (if is_some p then await_approval else if b then combine else decide)
    routed (some id) b e f = waiting_for id e
    routed none true e f = spent e (ground (arith, f))
    routed none false e f = left_over e (ground (arith, f))

-- The state that a walk ends or pauses in is reached.
abbrev pub Reached : Orchestrator → Option Node → GraphState → GraphOutcome → Type 0
Reached o origin start (done st) = Reach o origin start none st
Reached o origin start (interrupted st) = Reach o origin start (some await_approval) st

-- Whatever the model answers and the specialists do, the walk makes steps of the abstract machine only:
-- from a node that is reached it ends in a state that is reached, if it returns.
pub walk-Reached :
    (o : Orchestrator) (left : ℕ) (origin : Option Node) (start st : GraphState) (node : Node)
    (s : Session)
    → Reach o origin start (some node) st
    → Returns (Reached o origin start) (walk o left node st s)
unfolding walk visit go_to route
walk-Reached o zero origin start st node s r = tt
walk-Reached o (suc left) origin start st identify_scope s r =
    Returns-bind _ (Reached o origin start) (Nodes.identify_scope o st) _ s
      (identify_scope-Scoped o st s)
      (λ u s' d. walk-Reached o left origin start u decide s' (next r (scoping d)))
walk-Reached o (suc left) origin start st decide s r =
    Returns-bind _ (Reached o origin start) (Nodes.decide o st) _ s (decide-Decided o st s)
      (λ u s' d.
        walk-Reached o left origin start u (route_after_decide u) s'
          (next r (deciding d (route_after_decide-AfterDecide u))))
walk-Reached o (suc left) origin start st delegate s r =
    Returns-bind _ (Reached o origin start) (Nodes.delegate o st) _ s (delegate-Delegated o st s)
      (λ u s' d.
        walk-Reached o left origin start u (route_after_delegate u) s'
          (next r (delegating d (route_after_delegate-AfterDelegate u))))
walk-Reached o (suc left) origin start st await_approval s r = r
walk-Reached o (suc left) origin start st combine s r =
    Returns-bind _ (Reached o origin start) (Nodes.combine o st) _ s (combine-Combined o st s)
      (λ u s' d. next r (combining d))

-- How many steps a walk may still make from a node
abbrev pub steps_from : Node → GraphState → ℕ
steps_from identify_scope st = 2 * st.remaining_steps + 3
steps_from decide st = 2 * st.remaining_steps + 2
steps_from delegate st = 2 * (st.remaining_steps - 1) + 3
steps_from await_approval st = 1
steps_from combine st = 1

-- Two walks that agree on what follows agree on a step.
binds_agree :
    {A B : Type 0} (Q : A → Type 0) (m : Action A) (f g : A → Action B) (s : Session)
    → Returns Q (m s)
    → ((a : A) (s' : Session) → Q a → f a s' ≡ g a s')
    → (m >>= f) s ≡ (m >>= g) s
binds_agree {A} {B} Q m f g s h k = agree (m s) h
  where
    agree : (out : Result A × Session) → Returns Q out → after f throw out ≡ after g throw out
    agree (ok a, s') q = k a s' q
    agree (err e, s') q = refl

after_decide-steps :
    {st u : GraphState} → Decided st u → steps_from (route_after_decide u) u < steps_from decide st
unfolding route_after_decide
after_decide-steps (stopped c) = omega arith
after_decide-steps {st} (sent agent_name instruction named steps) =
    sent_on (not (is_named (some agent_name)))
  where
    sent_on :
        (b : Bool)
        → steps_from (if b then combine else delegate) (send agent_name instruction st)
          < steps_from decide st
    sent_on true = omega arith
    sent_on false = omega arith

after_delegate-steps :
    {o : Orchestrator} {st u : GraphState}
    → Delegated o st u
    → steps_from (route_after_delegate u) u < steps_from delegate st
unfolding route_after_delegate
after_delegate-steps {st = st} (delegated i text p g to e bounded pending_then) =
    routed (is_some p) (st.remaining_steps - 1 == 0)
  where
    routed :
        (b c : Bool)
        → steps_from (if b then await_approval else if c then combine else decide) (record st {
          invocations = st.invocations ++ i ∷ [];
          remaining_steps = st.remaining_steps - 1;
          next_agent = none;
          next_instruction = none;
          pending_approval_id = p;
          pending_approval_agent = g;
        })
          < steps_from delegate st
    routed true c = omega arith
    routed false true = omega arith
    routed false false = omega arith

steps_from-pos : (node : Node) (st : GraphState) → 0 < steps_from node st
steps_from-pos identify_scope st = omega arith
steps_from-pos decide st = omega arith
steps_from-pos delegate st = omega arith
steps_from-pos await_approval st = omega arith
steps_from-pos combine st = omega arith

after_scope-steps :
    {st u : GraphState} → Scoped st u → steps_from decide u < steps_from identify_scope st
after_scope-steps (scoped domains named) = omega arith

-- The walk with another action in place of the error at the recursion limit
abbrev pub walk_or : Walk → Orchestrator → ℕ → Walk
walk_or at_limit o zero node st = at_limit node st
walk_or at_limit o (suc left) node st = visit o (walk_or at_limit o left) node st

-- The walk ends before the recursion limit, if that is at least the number of steps that can be made
-- from the node: whatever were done on reaching that limit, the walk is the one with that limit or
-- with any higher one, so the limit's error is not met.
pub walk-limit :
    (o : Orchestrator) (at_limit : Walk) (limit higher : ℕ) (node : Node) (st : GraphState)
    (s : Session)
    → steps_from node st ≤ limit
    → limit ≤ higher
    → walk o higher node st s ≡ walk_or at_limit o limit node st s
unfolding walk visit go_to route
walk-limit o at_limit zero higher node st s h le = absurd (omega (arith, steps_from-pos node st))
walk-limit o at_limit (suc limit) zero node st s h le = absurd (omega arith)
walk-limit o at_limit (suc limit) (suc higher) identify_scope st s h le =
    binds_agree (Scoped st) (Nodes.identify_scope o st) _ _ s (identify_scope-Scoped o st s)
      (λ u s' d.
        let fewer = after_scope-steps d in
        walk-limit o at_limit limit higher decide u s' (omega arith) (omega arith))
walk-limit o at_limit (suc limit) (suc higher) decide st s h le =
    binds_agree (Decided st) (Nodes.decide o st) _ _ s (decide-Decided o st s) (λ u s' d.
      let fewer = after_decide-steps d in
      walk-limit o at_limit limit higher (route_after_decide u) u s' (omega arith) (omega arith))
walk-limit o at_limit (suc limit) (suc higher) delegate st s h le =
    binds_agree (Delegated o st) (Nodes.delegate o st) _ _ s (delegate-Delegated o st s) (λ u s' d.
      let fewer = after_delegate-steps d in
      walk-limit o at_limit limit higher (route_after_delegate u) u s' (omega arith) (omega arith))
walk-limit o at_limit (suc limit) (suc higher) await_approval st s h le = refl
walk-limit o at_limit (suc limit) (suc higher) combine st s h le = refl
