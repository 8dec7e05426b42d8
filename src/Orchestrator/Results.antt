-- ===== src/Orchestrator/Results.antt =====
-- What `handle` and `resume` of the orchestrator return and record.
use mathlib.Core.List.{append-nil}
use restaurant_sahayak.Base.{
  ℕ, ◌+◌, ◌≤◌, ◌<◌, ◌≡◌, refl, sym, ◌∙◌, ap, true, is_some, Option, none, some, List, [], ◌∷◌, ◌++◌,
  map, All, arith, find, if◌then◌else◌,
}
use restaurant_sahayak.Errors.{Result, ok}
use restaurant_sahayak.Models.{Session}
use restaurant_sahayak.Models.Runs.{agent_run_row, AgentRun, RunStatus}
use restaurant_sahayak.ToolCalling.{AgentStatus}
use restaurant_sahayak.Orchestrator.State.{
  Invocation, InvocationRecord, InvocationTask, instructed, resolve_approval, GraphState,
  OrchestratorResult, Report,
}
use restaurant_sahayak.Orchestrator.Nodes.{Orchestrator, is_waiting}
use restaurant_sahayak.Orchestrator.Graph.{await_approval, GraphOutcome, done, interrupted}
use restaurant_sahayak.Orchestrator.Steps.{
  Sound, Fits, delegations, delegation_count, awaited_by, awaited_approvals, resolved_approvals,
  resolved_by, option_list,
}
use restaurant_sahayak.Orchestrator.Updates.{approval_in}
use restaurant_sahayak.Orchestrator.Service.{Process, record_of, result_of, pause_of}

-- The delegations, the approvals that they ended in waiting for and those resolved, among the
-- invocations of a result
abbrev pub delegations_in : List InvocationRecord → ℕ
delegations_in [] = 0
delegations_in (i ∷ is) = delegation_count i.task + delegations_in is

abbrev pub awaited_by_record : InvocationTask → InvocationRecord → List ℕ
awaited_by_record (instructed _) i =
    if is_waiting i.status then option_list (approval_in i.payload) else []
awaited_by_record (resolve_approval _) i = []

abbrev pub awaited_in : List InvocationRecord → List ℕ
awaited_in [] = []
awaited_in (i ∷ is) = awaited_by_record i.task i ++ awaited_in is

abbrev pub resolved_in : List InvocationRecord → List ℕ
resolved_in [] = []
resolved_in (i ∷ is) = resolved_by i.task ++ resolved_in is

-- What a result accounts for, by its status: a completed one for no more delegations than are
-- allowed, with every approval that one of them ended in waiting for resolved, in this order; a
-- paused one for the same and for the approval that it waits for; an error for nothing.
abbrev pub AccountsAs : Orchestrator → AgentStatus → OrchestratorResult → Type 0
AccountsAs o AgentStatus.completed result =
    (delegations_in result.invocations ≤ o.max_delegations)
    × (awaited_in result.invocations ≡ resolved_in result.invocations)
AccountsAs o AgentStatus.pending_approval result =
    (delegations_in result.invocations ≤ o.max_delegations)
    × ((id : ℕ) × (result.awaiting_approval_id ≡ some id)
        × (awaited_in result.invocations ≡ resolved_in result.invocations ++ id ∷ []))
AccountsAs o AgentStatus.error result = result.invocations ≡ []

abbrev pub Accounts : Orchestrator → OrchestratorResult → Type 0
Accounts o result = AccountsAs o result.status result

-- The status of the run's row beside a result: a paused run is still running.
abbrev pub row_status : AgentStatus → RunStatus
row_status AgentStatus.completed = RunStatus.completed
row_status AgentStatus.pending_approval = RunStatus.running
row_status AgentStatus.error = RunStatus.failed

abbrev pub HasStatus : ℕ → RunStatus → Session → Type 0
HasStatus run_id status s =
    (r : AgentRun) × (find run_id s.agent_runs ≡ some r) × (r.status ≡ status)

-- The run's row is still running, and its identity was handed out.
abbrev pub IsRunning : ℕ → Session → Type 0
IsRunning run_id s = HasStatus run_id RunStatus.running s × (run_id < s.next_id)

-- The states of the paused threads are sound, and each waits for an approval.
abbrev pub PausesSound : Orchestrator → Process → Type 0
PausesSound o p = All (λ c. Sound o c.state × Fits (some await_approval) c.state) p.checkpoints

-- A call that returned: the result is of the run, accounts for what was done, and the run's row has
-- its status.
abbrev pub Ends : Orchestrator → ℕ → Result OrchestratorResult × Process → Type 0
Ends o run_id out =
    (result : OrchestratorResult) × (p : Process) × (out ≡ (ok result, p))
    × (result.orchestrator_run_id ≡ run_id)
    × Accounts o result
    × HasStatus run_id (row_status result.status) p.session
    × PausesSound o p

-- What holds of a walk's outcome
abbrev pub IsSound : Orchestrator → GraphOutcome → Type 0
IsSound o (done st) = Sound o st × Fits none st
IsSound o (interrupted st) = Sound o st × Fits (some await_approval) st

delegations_in-map : (is : List Invocation) → delegations_in (map record_of is) ≡ delegations is
delegations_in-map [] = refl
delegations_in-map (i ∷ is) = omega (arith, delegations_in-map is)

awaited_in-map : (is : List Invocation) → awaited_in (map record_of is) ≡ awaited_approvals is
awaited_in-map [] = refl
awaited_in-map (i ∷ is) = same i.task (awaited_in-map is)
  where
    same :
        (t : InvocationTask)
        → awaited_in (map record_of is) ≡ awaited_approvals is
        → awaited_by_record t (record_of i) ++ awaited_in (map record_of is)
          ≡ awaited_by t i ++ awaited_approvals is
    same (instructed text) e =
        ap (λ l. (if is_waiting i.status then option_list (approval_in i.payload) else []) ++ l) e
    same (resolve_approval id) e = e

resolved_in-map : (is : List Invocation) → resolved_in (map record_of is) ≡ resolved_approvals is
resolved_in-map [] = refl
resolved_in-map (i ∷ is) = ap (λ l. resolved_by i.task ++ l) (resolved_in-map is)

pub done-Accounts :
    (o : Orchestrator) (run_id : ℕ) (st : GraphState) (summary : Report)
    → IsSound o (done st)
    → Accounts o (result_of run_id AgentStatus.completed summary (map record_of st.invocations))
done-Accounts o run_id st summary (sound, (none_pending, covered)) = (
  omega (arith, delegations_in-map st.invocations, sound.budget),
  awaited_in-map st.invocations
      ∙ sound.approvals
      ∙ ap (λ p. resolved_approvals st.invocations ++ option_list p) none_pending
      ∙ append-nil (resolved_approvals st.invocations)
      ∙ sym (resolved_in-map st.invocations),
)

pub pause-Accounts :
    (o : Orchestrator) (run_id : ℕ) (st : GraphState)
    → IsSound o (interrupted st)
    → Accounts o (pause_of run_id st)
pause-Accounts o run_id st (sound, pending) = waiting_for st.pending_approval_id refl pending
  where
    waiting_for :
        (p : Option ℕ)
        → st.pending_approval_id ≡ p
        → is_some p ≡ true
        → Accounts o (pause_of run_id st)
    waiting_for none e h = absurd (cc h)
    waiting_for (some id) e h = (
      omega (arith, delegations_in-map st.invocations, sound.budget),
      (
        id,
        e,
        awaited_in-map st.invocations
            ∙ sound.approvals
            ∙ ap (λ p. resolved_approvals st.invocations ++ option_list p) e
            ∙ ap (λ l. l ++ id ∷ []) (sym (resolved_in-map st.invocations)),
      ),
    )
