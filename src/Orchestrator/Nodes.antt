-- ===== src/Orchestrator/Nodes.antt =====
-- The nodes of the orchestrator's graph. A node returns the state with its update merged as the
-- graph's reducers do: `invocations` by append, any other key by overwriting.
mod Agent
mod Decide
mod Delegate
mod Approve
unfoldable pub use Agent.*
unfoldable pub use Decide.*
unfoldable pub use Delegate.*
unfoldable pub use Approve.*
