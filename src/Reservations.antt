-- ===== src/Reservations.antt =====
-- The reservation book (app/services/reservation_service.py, app/repositories/reservation_repo.py).
pub mod Repository
pub mod Service
pub mod Conflicts
pub mod Bookings
pub mod Steps
pub mod Preserves
pub mod Tables
pub mod Gate
pub mod Histories
pub mod Executor
unfoldable pub use Repository.*
unfoldable pub use Service.*
