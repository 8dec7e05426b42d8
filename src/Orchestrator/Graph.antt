-- ===== src/Orchestrator/Graph.antt =====
-- The graph of `_build_graph` and the walk that LangGraph makes through it: a node, the edge that
-- its state selects, and so on to the end, to the pause in front of `await_approval`, or to the
-- recursion limit.
use restaurant_sahayak.Base.{
  ℕ, zero, suc, Bool, false, not, ◌||◌, ◌==◌, str_eq, is_some, String, Option, none, some,
  if◌then◌else◌,
}
use restaurant_sahayak.Errors.{other}
use restaurant_sahayak.Exec.{pure, throw, ◌>>=◌}
use restaurant_sahayak.Models.{Action}
use restaurant_sahayak.Orchestrator.State.{GraphState}
use restaurant_sahayak.Orchestrator.Nodes
use restaurant_sahayak.Orchestrator.Nodes.{Orchestrator}

pub data Node : Type 0 where
  identify_scope decide delegate await_approval combine : Node

-- The truth of `state.get("next_agent")`
abbrev pub is_named : Option String → Bool
is_named none = false
is_named (some name) = not (str_eq name "")

-- `_route_after_decide`
unfoldable pub route_after_decide : GraphState → Node
route_after_decide st = if st.finished || not (is_named st.next_agent) then combine else delegate

-- `_route_after_delegate`
unfoldable pub route_after_delegate : GraphState → Node
route_after_delegate st =
    if is_some st.pending_approval_id
    then await_approval
    else if st.remaining_steps == 0
    then combine
    else decide

-- The edges of `_build_graph`; `none` is END.
unfoldable pub route : Node → GraphState → Option Node
route identify_scope st = some decide
route decide st = some (route_after_decide st)
route delegate st = some (route_after_delegate st)
route await_approval st = some decide
route combine st = none

-- What `ainvoke` returns: the state at the end, or at the interrupt of `await_approval`
pub data GraphOutcome : Type 0 where
  done interrupted : GraphState → GraphOutcome

abbrev pub Walk : Type 0
Walk = Node → GraphState → Action GraphOutcome

unfoldable pub go_to : Walk → Option Node → GraphState → Action GraphOutcome
go_to rest none st = pure (done st)
go_to rest (some node) st = rest node st

-- One step: the node, and the edge out of it
unfoldable pub visit : Orchestrator → Walk → Walk
visit o rest identify_scope st =
    Nodes.identify_scope o st >>= λ st'. go_to rest (route identify_scope st') st'
visit o rest decide st = Nodes.decide o st >>= λ st'. go_to rest (route decide st') st'
visit o rest delegate st = Nodes.delegate o st >>= λ st'. go_to rest (route delegate st') st'
visit o rest await_approval st = pure (interrupted st)
visit o rest combine st = Nodes.combine o st >>= λ st'. go_to rest (route combine st') st'

-- The walk, on the steps that the recursion limit leaves
unfoldable pub walk : Orchestrator → ℕ → Walk
walk o zero node st = throw (other "GraphRecursionError")
walk o (suc left) node st = visit o (walk o left) node st
