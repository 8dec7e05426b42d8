-- ===== src/Orchestrator/Steps/Holds.antt =====
-- What holds in front of every node is kept by every step.
use restaurant_sahayak.Base.{
  String, ℕ, suc, ◌+◌, ◌≤◌, ◌≡◌, refl, sym, ap, ◌∙◌, ◌≢◌, inr, true, false, is_some, Option, none,
  some, List, [], ◌∷◌, ◌++◌, All-append, arith,
}
use mathlib.Core.List.{append_assoc, append-nil}
use restaurant_sahayak.Orchestrator.State.{instructed, Invocation, GraphState}
use restaurant_sahayak.Orchestrator.Nodes.{Orchestrator, is_waiting}
use restaurant_sahayak.ToolCalling.{AgentStatus}
use restaurant_sahayak.Orchestrator.Graph.{Node, combine, is_named}
use restaurant_sahayak.Orchestrator.Updates.{
  AreNamed, Pends, waits, goes_on, Scoped, scoped, Decided, stopped, sent, Delegated, delegated,
  Resolved, resolved, Combined, combined,
}
use restaurant_sahayak.Orchestrator.Steps.{
  AfterDecide, over, unset, unnamed, addressed, AfterDelegate, waiting_for, spent, left_over, Step,
  scoping, deciding, delegating, resuming, combining, Reach, here, next, delegations, option_list,
  delegation_count, awaited_by, resolved_by, awaited_approvals, resolved_approvals, Sound, Fits,
}

delegations-append :
    (xs ys : List Invocation) → delegations (xs ++ ys) ≡ delegations xs + delegations ys
delegations-append [] ys = omega arith
delegations-append (x ∷ xs) ys = omega (arith, delegations-append xs ys)

awaited-append :
    (xs ys : List Invocation)
    → awaited_approvals (xs ++ ys) ≡ awaited_approvals xs ++ awaited_approvals ys
awaited-append [] ys = refl
awaited-append (x ∷ xs) ys =
    rw (awaited-append xs ys) (sym (append_assoc (awaited_by x.task x) _ _))

resolved-append :
    (xs ys : List Invocation)
    → resolved_approvals (xs ++ ys) ≡ resolved_approvals xs ++ resolved_approvals ys
resolved-append [] ys = refl
resolved-append (x ∷ xs) ys =
    rw (resolved-append xs ys) (sym (append_assoc (resolved_by x.task) _ _))

Decided-holds : (o : Orchestrator) {st u : GraphState} → Decided st u → Sound o st → Sound o u
Decided-holds o (stopped c) sound = record {
  budget = sound.budget;
  attempts = sound.attempts;
  approvals = sound.approvals;
  named = sound.named;
}
Decided-holds o (sent agent_name instruction named steps) sound = record {
  budget = sound.budget;
  attempts = sound.attempts;
  approvals = sound.approvals;
  named = sound.named;
}

-- Nothing is addressed once the decision is to stop, and a required domain has a name.
AfterDecide-Fits :
    {st u : GraphState} {node : Node}
    → Decided st u
    → AfterDecide u node
    → AreNamed st.required_domains
    → st.pending_approval_id ≡ none
    → Fits (some node) u
AfterDecide-Fits (stopped c) (over e) named none_pending = (none_pending, c)
AfterDecide-Fits (stopped c) (unset e) named none_pending = (none_pending, c)
AfterDecide-Fits (stopped c) (unnamed e) named none_pending = (none_pending, c)
AfterDecide-Fits (stopped c) (addressed name e f g) named none_pending = absurd (cc e)
AfterDecide-Fits (sent a i has_name steps) (over e) named none_pending = absurd (cc e)
AfterDecide-Fits (sent a i has_name steps) (unset e) named none_pending = absurd (cc e)
AfterDecide-Fits (sent a i has_name steps) (unnamed e) named none_pending =
    let false_is_true : false ≡ true = sym (ap is_named e) ∙ has_name named in
    absurd (cc false_is_true)
AfterDecide-Fits (sent a i has_name steps) (addressed name e f g) named none_pending =
    (none_pending, steps)

AfterDelegate-Fits : {u : GraphState} {node : Node} → AfterDelegate u node → Fits (some node) u
AfterDelegate-Fits (waiting_for id e) = ap is_some e
AfterDelegate-Fits (spent e f) = (e, inr f)
AfterDelegate-Fits (left_over e f) = e

not_waiting : (x : AgentStatus) → x ≢ AgentStatus.pending_approval → is_waiting x ≡ false
not_waiting AgentStatus.pending_approval ne = absurd (ne refl)
not_waiting AgentStatus.completed ne = refl
not_waiting AgentStatus.error ne = refl

-- The approval that a delegation ended in waiting for is the pending one.
awaited_new :
    {st : GraphState} {i : Invocation} {p : Option ℕ} {g : Option String} (text : String)
    → i.task ≡ instructed text
    → Pends st i p g
    → st.pending_approval_id ≡ none
    → awaited_by i.task i ≡ option_list p
awaited_new text e (waits w) none_pending = rw (e, w) refl
awaited_new {i = i} text e (goes_on ne) none_pending =
    rw (e, not_waiting i.status ne, none_pending) refl

Delegated-holds :
    (o : Orchestrator) {st u : GraphState}
    → Delegated o st u
    → Sound o st
    → st.pending_approval_id ≡ none
    → st.remaining_steps ≢ 0
    → Sound o u
Delegated-holds o {st} (delegated i text p g to e bounded pending_then) sound none_pending steps =
    record {
      budget =
          omega (
            arith,
            delegations-append st.invocations (i ∷ []),
            ap delegation_count e,
            sound.budget,
          );
      attempts =
          All-append (λ i. i.attempt ≤ suc o.max_retries_per_agent) st.invocations _ sound.attempts
            (bounded, tt);
      approvals =
          simp
            (
              awaited-append,
              resolved-append,
              append-nil,
              sound.approvals,
              none_pending,
              ap resolved_by e,
            )
            (ap (λ l. resolved_approvals st.invocations ++ l)
              (awaited_new text e pending_then none_pending));
      named = sound.named;
    }

Resolved-holds :
    (o : Orchestrator) {st u : GraphState}
    → Resolved st u
    → Sound o st
    → Sound o u × (u.pending_approval_id ≡ none)
Resolved-holds o {st} (resolved approval_id i e task once) sound = (
  record {
    budget =
        omega (
          arith,
          delegations-append st.invocations (i ∷ []),
          ap delegation_count task,
          sound.budget,
        );
    attempts =
        All-append (λ i. i.attempt ≤ suc o.max_retries_per_agent) st.invocations _ sound.attempts
          (omega (arith, once), tt);
    approvals = simp (awaited-append, resolved-append, append-nil, sound.approvals, e, task);
    named = sound.named;
  },
  refl,
)

Scoped-holds :
    (o : Orchestrator) {st u : GraphState}
    → Scoped st u
    → Sound o st
    → Sound o u × (u.pending_approval_id ≡ st.pending_approval_id)
Scoped-holds o (scoped domains named) sound = (
  record {
    budget = sound.budget;
    attempts = sound.attempts;
    approvals = sound.approvals;
    named = named;
  },
  refl,
)

Combined-holds :
    (o : Orchestrator) {st u : GraphState}
    → Combined st u
    → Sound o st × Fits (some combine) st
    → Sound o u × Fits none u
Combined-holds o (combined text) (sound, fits) = (
  record {
    budget = sound.budget;
    attempts = sound.attempts;
    approvals = sound.approvals;
    named = sound.named;
  },
  fits,
)

-- Every step keeps what holds in front of its node.
pub Step-holds :
    (o : Orchestrator) {n m : Option Node} {st u : GraphState}
    → Step o n st m u
    → Sound o st × Fits n st
    → Sound o u × Fits m u
Step-holds o (scoping d) (sound, fits) =
    let (sound', same) = Scoped-holds o d sound in (sound', same ∙ fits)
Step-holds o (deciding d after_it) (sound, fits) =
    (Decided-holds o d sound, AfterDecide-Fits d after_it sound.named fits)
Step-holds o (delegating d after_it) (sound, fits) =
    (Delegated-holds o d sound fits.0 fits.1, AfterDelegate-Fits after_it)
Step-holds o (resuming d) (sound, fits) = Resolved-holds o d sound
Step-holds o (combining d) h = Combined-holds o d h

pub Reach-holds :
    (o : Orchestrator) {origin : Option Node} {start : GraphState} {n : Option Node}
    {st : GraphState}
    → Sound o start × Fits origin start
    → Reach o origin start n st
    → Sound o st × Fits n st
Reach-holds o h here = h
Reach-holds o h (next r step) = Step-holds o step (Reach-holds o h r)
