-- ===== src/Booking.antt =====
-- backend/src/booking/booking.service.ts: BookingService.
pub mod Rules
mod Create
mod Review
mod Workflow
mod Queries
pub mod Machine
pub mod Overlap
pub mod Gates
pub mod Progress
pub mod Invoicing
pub mod Visits
pub mod Listing
mod Tests
unfoldable pub use Rules.*
unfoldable pub use Create.*
unfoldable pub use Review.*
unfoldable pub use Workflow.*
unfoldable pub use Queries.*
