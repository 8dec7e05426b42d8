-- ===== src/Orchestrator.antt =====
-- `OrchestratorAgent` (app/agents/orchestrator_agent.py): it decides which specialist to ask,
-- delegates, pauses for an approval and combines the results. `State` has the state of its graph,
-- `Nodes` the nodes, `Graph` the walk through them, `Service` `handle` and `resume`.
pub mod State
pub mod Nodes
pub mod Graph
pub mod Updates
pub mod Steps
pub mod Walks
pub mod Results
pub mod Endings
pub mod Preserves
pub mod Runs
pub mod Refusals
pub mod Partners
pub mod Sessions
pub mod Service
