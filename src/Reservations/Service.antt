-- ===== src/Reservations/Service.antt =====
-- `ReservationService`.
pub mod Common
pub mod Create
pub mod Change
pub mod Approved
pub mod Read
unfoldable pub use Common.*
unfoldable pub use Create.*
unfoldable pub use Change.*
unfoldable pub use Approved.*
unfoldable pub use Read.*
