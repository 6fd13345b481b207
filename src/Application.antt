-- ===== src/Application.antt =====
-- backend/src/booking-application/booking-application.service.ts: how someone applies for a space, with
-- or without an account, and how the landlord accepts or refuses. The names of persons, the headcount,
-- the intended use and the wording of mails and notifications are not kept; AuthService's reset of a
-- password is its mail.
pub mod Calendar
pub mod Accounts
pub mod Requests
pub mod Review
pub mod Writes
pub mod Decided
pub mod Pending
mod Tests
