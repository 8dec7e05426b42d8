-- ===== src/Memories.antt =====
-- The memory service (app/services/memory_service.py) and its repository
-- (app/repositories/memory_repo.py). The embedding provider and pgvector's distance are
-- parameters. Telemetry is left out.
pub mod Repository
pub mod Lifecycle
pub mod Search
pub mod Preserves
pub mod Index
pub mod Supersede
pub mod Clash
unfoldable pub use Repository.*
unfoldable pub use Lifecycle.*
unfoldable pub use Search.*
