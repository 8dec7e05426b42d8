-- ===== src/Tests/Orchestrator.antt =====
-- An orchestrator of the test restaurant: it asks the reservation agent, whose tool answers that an
-- approval is pending.
use mathlib.Core.Option
use restaurant_sahayak.Base.{
  ◌≡◌, refl, ℕ, String, str_eq, Bool, true, false, Option, none, some, List, [], ◌∷◌, codes, arith,
  inl, if◌then◌else◌,
}
use mathlib.Core.Path.{subst}
use restaurant_sahayak.Errors.{Result, ok, other}
use restaurant_sahayak.Exec.{pure, throw, Keeps-pure, Returns}
use restaurant_sahayak.Models.Enums.{TriggerType}
use restaurant_sahayak.Models.Approvals.{approved}
use restaurant_sahayak.Models.Runs.{AgentRun, RunStatus, ToolCall, agent_run_row, no_result}
use restaurant_sahayak.AgentRuns.{new_run}
use restaurant_sahayak.ToolCalling
use restaurant_sahayak.ToolCalling.{
  Agent, AgentStatus, Task, Tool, ToolOutput, LlmMessage, LlmResponse,
}
use restaurant_sahayak.ToolCalling.Preserves.{ToolsKeep}
use restaurant_sahayak.Approvals.Preserves.{PartnersKeep}
use restaurant_sahayak.Orchestrator.State.{
  SpecialistName, Prompt, scope_prompt, decide_prompt, combine_prompt, GraphState, instructed,
  reported, output,
}
use restaurant_sahayak.Orchestrator.Nodes.{Orchestrator, Answer}
use restaurant_sahayak.Orchestrator.Graph.{identify_scope, Walk, walk}
use restaurant_sahayak.Orchestrator.Service.{
  Process, Request, Unpaused, failure_of, failure_summary, handle, resume, run_of, initial_state,
}
use restaurant_sahayak.Orchestrator.Walks.{Reached, walk-Reached, walk_or, walk-limit}
use restaurant_sahayak.Orchestrator.Steps.{here}
use restaurant_sahayak.Orchestrator.Results.{IsRunning, Ends, PausesSound}
use restaurant_sahayak.Orchestrator.Preserves.{ServicesKeep}
use restaurant_sahayak.Orchestrator.Partners.{agents-ServicesKeep}
use restaurant_sahayak.Orchestrator.Runs.{handle-Ends, resume-Ends}
use restaurant_sahayak.Orchestrator.Endings.{completed_as}
use restaurant_sahayak.Orchestrator.Refusals.{resume_refused}
use restaurant_sahayak.Tests.{gate, gate_keeps, with_approvals}

-- A tool that answers with the pending approval 40
abbrev big_party : Tool
big_party = record {
  name = "modify_reservation";
  call =
      λ _ _. pure (record { json = "{}"; status = some "pending_approval"; approval_id = some 40 });
}

abbrev call_of : String → ToolCall
call_of name = record { name = name; arguments = "{}" }

abbrev answer_to : List LlmMessage → Result LlmResponse
answer_to (_ ∷ _ ∷ []) =
    ok (record { content = none; tool_calls = call_of "modify_reservation" ∷ [] })
answer_to _ = ok (record { content = some (codes "It waits."); tool_calls = [] })

abbrev waiter : Agent
waiter = record {
  name = "reservation";
  system_prompt = "You book tables.";
  model_name = "qwen3:8b";
  generate = answer_to;
  tools = big_party ∷ [];
  max_iterations = 8;
}

abbrev agents : String → Option Agent
agents name = if str_eq name "reservation" then some waiter else none

-- The model names the domain and tries to finish at once.
abbrev plan : Prompt → Result LlmResponse
plan (scope_prompt _ _) =
    ok (record { content = none; tool_calls = call_of "identify_required_domains" ∷ [] })
plan (decide_prompt _ _ _ _ _) = ok (record { content = none; tool_calls = call_of "finish" ∷ [] })
plan (combine_prompt _ _) = ok (record { content = some (codes " All done. "); tool_calls = [] })

abbrev orchestrator : Orchestrator
orchestrator = record {
  model_name = "qwen3:8b";
  generate = plan;
  read_delegate = λ _. none;
  read_required_domains =
      λ _. some (record { domains = SpecialistName.reservation ∷ SpecialistName.analytics ∷ [] });
  specialists = λ name. Option.map (λ agent. ToolCalling.handle agent) (agents name);
  approval_service = some gate;
  max_delegations = 6;
  max_retries_per_agent = 1;
  decide_system_prompt = "Delegate or finish.";
  scope_system_prompt = "Name the domains.";
}

abbrev request : Request
request = record {
  task = "Move the party of eight";
  restaurant_id = 1;
  trigger_type = TriggerType.manager_request;
  initiated_by_user_id = some 7;
  triggering_event_id = none;
  correlation_id = none;
}

abbrev process : Process
process = record { checkpoints = []; session = with_approvals }

agents_keep : (k : ℕ) → ServicesKeep (IsRunning k) orchestrator
agents_keep k =
    agents-ServicesKeep k orchestrator agents (λ name. refl) tools
      (λ service e.
        let same : gate ≡ service = cc e in
        subst (PartnersKeep (IsRunning k)) same (gate_keeps (IsRunning k)))
  where
    tools :
        (name : String) (agent : Agent)
        → agents name ≡ some agent
        → ToolsKeep (IsRunning k) agent.tools
    tools name agent e = named (str_eq name "reservation") e
      where
        named :
            (b : Bool)
            → (if b then some waiter else none) ≡ some agent
            → ToolsKeep (IsRunning k) agent.tools
        named true e =
            let same : waiter ≡ agent = cc e in
            subst (λ a. ToolsKeep (IsRunning k) a.tools) same
              ((λ arguments context. Keeps-pure (IsRunning k) _), tt)
        named false e = absurd (cc e)

run : AgentRun
run = new_run (run_of orchestrator request) with_approvals

walk-Reached_example :
    Returns
      (Reached orchestrator (some identify_scope) (initial_state orchestrator request run))
      (walk orchestrator 25 identify_scope (initial_state orchestrator request run) with_approvals)
walk-Reached_example =
    walk-Reached orchestrator 25 (some identify_scope) (initial_state orchestrator request run)
      (initial_state orchestrator request run) identify_scope with_approvals here

-- What would be done at the limit
abbrev unmet : Walk
unmet node st = throw (other "unmet")

walk-limit_example :
    walk orchestrator 25 identify_scope (initial_state orchestrator request run) with_approvals
    ≡ walk_or unmet orchestrator 15 identify_scope
        (initial_state orchestrator request run)
        with_approvals
walk-limit_example =
    walk-limit orchestrator unmet 15 25 identify_scope (initial_state orchestrator request run)
      with_approvals (omega arith) (omega arith)

handle-Ends_example : Ends orchestrator 100 (handle orchestrator request process)
handle-Ends_example = handle-Ends orchestrator request process (agents_keep 100).specialists tt tt

-- The thread of run 90, paused in front of the approval 40
abbrev waiting_state : GraphState
waiting_state = record (initial_state orchestrator request run) {
  invocations =
      record {
        agent_name = "reservation";
        task = instructed "Move the party of eight";
        status = AgentStatus.pending_approval;
        summary = reported no_result;
        payload =
            output
              (record { json = "{}"; status = some "pending_approval"; approval_id = some 40 });
        attempt = 1;
      }
      ∷ [];
  required_domains = "reservation" ∷ "analytics" ∷ [];
  remaining_steps = 5;
  pending_approval_id = some 40;
  pending_approval_agent = some "reservation";
}

abbrev open_run : AgentRun
open_run = record (new_run (run_of orchestrator request) with_approvals) { id = 90 }

abbrev paused : Process
paused = record {
  checkpoints = record { thread_id = 90; state = waiting_state } ∷ [];
  session = record with_approvals { agent_runs = open_run ∷ [] };
}

abbrev yes_by_seven : Answer
yes_by_seven = record { decision = approved; decided_by_user_id = some 7 }

paused-PausesSound : PausesSound orchestrator paused
paused-PausesSound = (
  (
    record {
      budget = omega arith;
      attempts = (omega arith, tt);
      approvals = refl;
      named = (refl, (refl, tt));
    },
    refl,
  ),
  tt,
)

-- What LangGraph does on a thread that is not paused
abbrev unmet_thread : Unpaused
unmet_thread _ _ = throw (other "EmptyInputError")

resume-Ends_example : Ends orchestrator 90 (resume orchestrator unmet_thread 90 yes_by_seven paused)
resume-Ends_example =
    resume-Ends orchestrator unmet_thread 90 yes_by_seven paused
      (record { thread_id = 90; state = waiting_state }) refl (agents_keep 90)
      ((open_run, refl, refl), omega arith) paused-PausesSound

resume_refused_example :
    resume orchestrator unmet_thread 90
      (record { decision = approved; decided_by_user_id = none })
      paused
    ≡ (ok (failure_of 90), completed_as 90 RunStatus.failed failure_summary paused)
resume_refused_example =
    resume_refused orchestrator unmet_thread gate 90 40
      (record { decision = approved; decided_by_user_id = none }) paused
      (record { thread_id = 90; state = waiting_state }) open_run refl refl refl refl (inl refl)
