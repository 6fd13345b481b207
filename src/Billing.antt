-- ===== src/Billing.antt =====
-- backend/src/billing/billing.service.ts: invoices, their lines and payments.
mod FromBooking
mod Invoices
mod Payments
mod Lines
pub mod Settlement
pub mod Reminders
pub mod Scope
mod Tests
unfoldable pub use FromBooking.*
unfoldable pub use Invoices.*
unfoldable pub use Payments.*
unfoldable pub use Lines.*
