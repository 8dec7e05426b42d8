-- ===== src/Orchestrator/Updates/Decisions.antt =====
-- The nodes that choose the domains and the next specialist.
use restaurant_sahayak.Base.{
  ◌≡◌, refl, ◌≢◌, inl, inr, String, Bool, true, false, not, ◌==◌, str_eq, is_some, Option, none,
  some, List, [], ◌∷◌, All, All-select, any-false, any-select, eq_iff, arith, Bool-cases,
  if◌then◌else◌, map,
}
use mathlib.Core.Path.{subst}
use restaurant_sahayak.Exec.{Returns, Returns-bind, Returns-any, lift}
use restaurant_sahayak.Models.{Session}
use restaurant_sahayak.Models.Runs.{ToolCall}
use restaurant_sahayak.Orchestrator.State.{
  SpecialistName, spelled, DelegateDecision, RequiredDomainsDecision, Invocation, GraphState,
  decide_prompt, scope_prompt,
}
use restaurant_sahayak.Orchestrator.Nodes.{
  Orchestrator, known_domains, required_of, identify_scope, missing_required_domains, send,
  force_delegate, settle, routed, follow, ask_model, decide, is_covered, status_request,
}
use restaurant_sahayak.Orchestrator.Graph.{is_named}
use restaurant_sahayak.Orchestrator.Updates.{
  AreNamed, IsAsked, Scoped, scoped, Decided, stopped, sent,
}

spelled-named : (n : SpecialistName) → is_named (some (spelled n)) ≡ true
spelled-named SpecialistName.reservation = refl
spelled-named SpecialistName.customer = refl
spelled-named SpecialistName.inventory = refl
spelled-named SpecialistName.staffing = refl
spelled-named SpecialistName.analytics = refl

spelled-AreNamed : (names : List SpecialistName) → AreNamed (map spelled names)
spelled-AreNamed [] = tt
spelled-AreNamed (n ∷ names) = (spelled-named n, spelled-AreNamed names)

known_domains-AreNamed :
    (o : Orchestrator) (d : Option RequiredDomainsDecision) → AreNamed (known_domains o d)
unfolding known_domains
known_domains-AreNamed o none = tt
known_domains-AreNamed o (some d) =
    All-select (λ name. is_named (some name) ≡ true) (λ name. is_some (o.specialists name))
      (map spelled d.domains) (spelled-AreNamed d.domains)

required_of-AreNamed : (o : Orchestrator) (calls : List ToolCall) → AreNamed (required_of o calls)
unfolding required_of
required_of-AreNamed o [] = tt
required_of-AreNamed o (call ∷ _) = chosen (str_eq call.name "identify_required_domains")
  where
    chosen :
        (b : Bool)
        → AreNamed (if b then known_domains o (o.read_required_domains call.arguments) else [])
    chosen true = known_domains-AreNamed o (o.read_required_domains call.arguments)
    chosen false = tt

pub identify_scope-Scoped :
    (o : Orchestrator) (st : GraphState) (s : Session) → Returns (Scoped st) (identify_scope o st s)
unfolding identify_scope
identify_scope-Scoped o st s =
    Returns-bind (λ _. Unit {0}) (Scoped st)
      (lift (o.generate (scope_prompt o.scope_system_prompt st.task))) _ s (Returns-any _)
      (λ response s' _.
        scoped (required_of o response.tool_calls) (required_of-AreNamed o response.tool_calls))

covered-IsAsked :
    (is : List Invocation) (name : String) → is_covered is name ≡ true → IsAsked is name
covered-IsAsked [] name e = absurd (cc e)
covered-IsAsked (i ∷ is) name e = elim (Bool-cases (str_eq i.agent_name name)) [
  | inl same ↦ inl (ground (arith, same, eq_iff i.agent_name name))
  | inr other ↦ inr (covered-IsAsked is name (rw other at e))
]

none_missing :
    (st : GraphState)
    → missing_required_domains st ≡ []
    → All (IsAsked st.invocations) st.required_domains
unfolding missing_required_domains
none_missing st e =
    any-false (λ d. not (is_covered st.invocations d)) (IsAsked st.invocations) st.required_domains
      (λ d asked. covered-IsAsked st.invocations d (ground (arith, asked)))
      (any-select (λ d. not (is_covered st.invocations d)) st.required_domains e)

module _ (o : Orchestrator) (st : GraphState) (steps : st.remaining_steps ≢ 0) where
  settle-Decided :
      (missing : List String)
      → missing_required_domains st ≡ missing
      → Decided st (settle missing st)
  unfolding settle force_delegate
  settle-Decided [] e = stopped (inl (none_missing st e))
  settle-Decided (d ∷ ds) e = sent d (status_request d st.task) named steps
    where
      named : AreNamed st.required_domains → is_named (some d) ≡ true
      named h =
          (subst AreNamed e (
            unfold missing_required_domains in
            All-select (λ name. is_named (some name) ≡ true)
              (λ d. not (is_covered st.invocations d)) st.required_domains h)).0

  routed-Decided :
      (d : Option DelegateDecision) → Decided st (routed o (missing_required_domains st) st d)
  unfolding routed
  routed-Decided none = settle-Decided (missing_required_domains st) refl
  routed-Decided (some d) = known (is_some (o.specialists (spelled d.agent_name)))
    where
      known :
          (b : Bool)
          → Decided st (
              if b
              then send (spelled d.agent_name) d.instruction st
              else settle (missing_required_domains st) st)
      known true = sent (spelled d.agent_name) d.instruction (λ _. spelled-named d.agent_name) steps
      known false = settle-Decided (missing_required_domains st) refl

  follow-Decided :
      (calls : List ToolCall) → Decided st (follow o (missing_required_domains st) st calls)
  unfolding follow
  follow-Decided [] = settle-Decided (missing_required_domains st) refl
  follow-Decided (call ∷ _) = named (str_eq call.name "finish") (str_eq call.name "delegate")
    where
      named :
          (finish delegate : Bool)
          → Decided st (
              if finish
              then settle (missing_required_domains st) st
              else if delegate
              then routed o (missing_required_domains st) st (o.read_delegate call.arguments)
              else settle (missing_required_domains st) st)
      named true _ = settle-Decided (missing_required_domains st) refl
      named false true = routed-Decided (o.read_delegate call.arguments)
      named false false = settle-Decided (missing_required_domains st) refl

  ask_model-Decided : (s : Session) → Returns (Decided st) (ask_model o st s)
  unfolding ask_model
  ask_model-Decided s =
      Returns-bind (λ _. Unit {0}) (Decided st)
        (lift (
          o.generate (
            decide_prompt o.decide_system_prompt s.now st.task st.invocations
              (missing_required_domains st))))
        _ s (Returns-any _) (λ response s' _. follow-Decided response.tool_calls)

pub decide-Decided :
    (o : Orchestrator) (st : GraphState) (s : Session) → Returns (Decided st) (decide o st s)
unfolding decide
decide-Decided o st s = elim (Bool-cases (st.remaining_steps == 0)) [
  | inl none_left ↦ rw none_left (stopped (inr (ground (arith, none_left))))
  | inr some_left ↦ rw some_left (ask_model-Decided o st (λ e. ground (arith, some_left)) s)
]
