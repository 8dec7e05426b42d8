-- ===== src/Exec.antt =====
-- Methods that work on the session and may raise. What was written before a raise stays written
-- in the session, so the state comes back beside an exception too.
mod Defs
mod Invariants
unfoldable pub use Defs.*
pub use Invariants.*
