-- ===== src/Orchestrator/Updates.antt =====
-- What each node of the orchestrator's graph makes of the state, if it returns.
pub mod Decisions
pub mod Calls
use restaurant_sahayak.Base.{
  ℕ, suc, ◌-◌, ◌++◌, ◌≤◌, ◌≡◌, ◌≢◌, ◌⊎◌, String, true, false, Option, none, some, List, [], ◌∷◌,
  All, Text,
}
use restaurant_sahayak.ToolCalling.{AgentStatus}
use restaurant_sahayak.Orchestrator.State.{
  GraphState, Invocation, instructed, resolve_approval, InvocationData, output,
}
use restaurant_sahayak.Orchestrator.Nodes.{Orchestrator}
use restaurant_sahayak.Orchestrator.Graph.{is_named}

-- Every name of a list is a key that the routing takes for one.
abbrev pub AreNamed : List String → Type 0
AreNamed = All (λ name. is_named (some name) ≡ true)

-- One of the invocations is of this agent.
abbrev pub IsAsked : List Invocation → String → Type 0
IsAsked [] name = ⊥
IsAsked (i ∷ is) name = (i.agent_name ≡ name) ⊎ IsAsked is name

-- Every required domain has been asked, or no step is left.
abbrev pub IsCovered : GraphState → Type 0
IsCovered st = All (IsAsked st.invocations) st.required_domains ⊎ (st.remaining_steps ≡ 0)

-- A decision: to stop, with every required domain covered or no step left, or to send a task to a
-- named specialist while steps are left.
pub data Decided (st : GraphState) : GraphState → Type 0 where
  stopped :
      IsCovered st
      → Decided st (record st { next_agent = none; next_instruction = none; finished = true })
  sent :
      (agent_name instruction : String)
      → (AreNamed st.required_domains → is_named (some agent_name) ≡ true)
      → st.remaining_steps ≢ 0
      → Decided st (record st {
        next_agent = some agent_name;
        next_instruction = some instruction;
        finished = false;
      })

abbrev pub approval_in : InvocationData → Option ℕ
approval_in (output out) = out.approval_id
approval_in _ = none

-- The approval and the agent that are pending after an invocation: those of an invocation that ended
-- in waiting, else the former.
pub data Pends (st : GraphState) (i : Invocation) : Option ℕ → Option String → Type 0 where
  waits :
      i.status ≡ AgentStatus.pending_approval
      → Pends st i (approval_in i.payload) (some i.agent_name)
  goes_on :
      i.status ≢ AgentStatus.pending_approval
      → Pends st i st.pending_approval_id st.pending_approval_agent

-- A delegation to the agent that the decision named: one more invocation and one step less, after a
-- bounded number of attempts.
pub data Delegated (o : Orchestrator) (st : GraphState) : GraphState → Type 0 where
  delegated :
      (i : Invocation) (text : String) (waiting : Option ℕ) (agent : Option String)
      → st.next_agent ≡ some i.agent_name
      → i.task ≡ instructed text
      → i.attempt ≤ suc o.max_retries_per_agent
      → Pends st i waiting agent
      → Delegated o st (record st {
        invocations = st.invocations ++ i ∷ [];
        remaining_steps = st.remaining_steps - 1;
        next_agent = none;
        next_instruction = none;
        pending_approval_id = waiting;
        pending_approval_agent = agent;
      })

-- The pending approval is resolved by one more invocation, and none is pending then.
pub data Resolved (st : GraphState) : GraphState → Type 0 where
  resolved :
      (approval_id : ℕ) (i : Invocation)
      → st.pending_approval_id ≡ some approval_id
      → i.task ≡ resolve_approval approval_id
      → i.attempt ≡ 1
      → Resolved st (record st {
        invocations = st.invocations ++ i ∷ [];
        pending_approval_id = none;
        pending_approval_agent = none;
      })

pub data Combined (st : GraphState) : GraphState → Type 0 where
  combined : (text : Option Text) → Combined st (record st { final_response = text })

pub data Scoped (st : GraphState) : GraphState → Type 0 where
  scoped :
      (domains : List String)
      → AreNamed domains
      → Scoped st (record st { required_domains = domains })
