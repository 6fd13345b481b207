-- ===== src/Guards.antt =====
-- backend/src/common/guards and common/validators: what a request must pass before a handler runs.
pub mod RateLimit
mod Tests
