-- ===== src/Maintenance.antt =====
-- backend/src/maintenance/maintenance.service.ts: the tickets of a landlord's spaces. A ticket's
-- number, its chat session and the wording of its mails are not kept; a mail that the service
-- sends in the background is sent at once.
pub mod Tickets
pub mod Actions
pub mod Lists
pub mod Life
pub mod Runs
pub mod Scope
pub mod Raised
mod Tests
