-- ===== src/Orchestrator/Nodes/Decide.antt =====
-- The nodes that ask the model: the scope, the decisions and the answer.
use Prim.Native.String.{◌++◌ as str_append}
use restaurant_sahayak.Base.{
  String, Bool, true, false, not, ◌==◌, str_eq, is_some, Option, none, some, List, [], ◌∷◌, codes,
  any, select, map, if◌then◌else◌,
}
use restaurant_sahayak.Exec.{pure, lift, ◌>>=◌}
use restaurant_sahayak.Models.{Action, utcnow}
use restaurant_sahayak.ToolCalling.{final_text}
use restaurant_sahayak.Models.Runs.{ToolCall}
use restaurant_sahayak.Orchestrator.State.{
  DelegateDecision, RequiredDomainsDecision, spelled, Invocation, GraphState, scope_prompt,
  decide_prompt, combine_prompt,
}
use restaurant_sahayak.Orchestrator.Nodes.Agent.{Orchestrator}

-- `[d for d in decision.domains if d in self.specialists]`
unfoldable pub known_domains : Orchestrator → Option RequiredDomainsDecision → List String
known_domains o none = []
known_domains o (some d) = select (λ name. is_some (o.specialists name)) (map spelled d.domains)

unfoldable pub required_of : Orchestrator → List ToolCall → List String
required_of o [] = []
required_of o (call ∷ _) =
    if str_eq call.name "identify_required_domains"
    then known_domains o (o.read_required_domains call.arguments)
    else []

-- `_identify_scope_node`
unfoldable pub identify_scope : Orchestrator → GraphState → Action GraphState
identify_scope o st = do
  response ← lift (o.generate (scope_prompt o.scope_system_prompt st.task))
  pure (record st { required_domains = required_of o response.tool_calls })

-- `d in covered`
abbrev pub is_covered : List Invocation → String → Bool
is_covered invocations d = any (λ i. str_eq i.agent_name d) invocations

-- `_missing_required_domains`
unfoldable pub missing_required_domains : GraphState → List String
missing_required_domains st = select (λ d. not (is_covered st.invocations d)) st.required_domains

-- The instruction of `_force_delegate`
abbrev pub status_request : String → String → String
status_request agent_name task =
    str_append "As part of fully answering the manager's request — \"" (
      str_append task
        (str_append "\" — report the current " (str_append agent_name " status relevant to it.")))

abbrev pub send : String → String → GraphState → GraphState
send agent_name instruction st = record st {
  next_agent = some agent_name;
  next_instruction = some instruction;
  finished = false;
}

-- `_force_delegate`
unfoldable pub force_delegate : String → GraphState → GraphState
force_delegate agent_name st = send agent_name (status_request agent_name st.task) st

abbrev pub stop : GraphState → GraphState
stop st = record st { next_agent = none; next_instruction = none; finished = true }

-- `if missing_required: return self._force_delegate(missing_required[0], state)`, and else the end
unfoldable pub settle : List String → GraphState → GraphState
settle [] st = stop st
settle (d ∷ _) st = force_delegate d st

-- A call of `delegate`, after its validation
unfoldable pub routed :
    Orchestrator → List String → GraphState → Option DelegateDecision → GraphState
routed o missing st none = settle missing st
routed o missing st (some d) =
    if is_some (o.specialists (spelled d.agent_name))
    then send (spelled d.agent_name) d.instruction st
    else settle missing st

-- What the response asks for, by its first tool call
unfoldable pub follow : Orchestrator → List String → GraphState → List ToolCall → GraphState
follow o missing st [] = settle missing st
follow o missing st (call ∷ _) =
    if str_eq call.name "finish"
    then settle missing st
    else if str_eq call.name "delegate"
    then routed o missing st (o.read_delegate call.arguments)
    else settle missing st

unfoldable pub ask_model : Orchestrator → GraphState → Action GraphState
ask_model o st = do
  let missing = missing_required_domains st
  now ← utcnow
  response ←
      lift (o.generate (decide_prompt o.decide_system_prompt now st.task st.invocations missing))
  pure (follow o missing st response.tool_calls)

-- `_decide_node`
unfoldable pub decide : Orchestrator → GraphState → Action GraphState
decide o st = if st.remaining_steps == 0 then pure (stop st) else ask_model o st

unfoldable pub combine_all : Orchestrator → GraphState → List Invocation → Action GraphState
combine_all o st [] = pure (record st {
  final_response =
      some (codes "I wasn't able to determine which specialist should handle this request.");
})
combine_all o st (i ∷ is) = do
  response ← lift (o.generate (combine_prompt st.task (i ∷ is)))
  pure (record st { final_response = some (final_text response.content) })

-- `_combine_node`
unfoldable pub combine : Orchestrator → GraphState → Action GraphState
combine o st = combine_all o st st.invocations
