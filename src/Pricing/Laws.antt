-- ===== src/Pricing/Laws.antt =====
-- backend/src/common/utils/addon-pricing.util.ts and BookingService.durationMonths: bounds.
use pfe.Base.{ℕ, ◌+◌, ◌*◌, ◌≤◌, arith}
use pfe.Pricing.{duration_months, day_ms}

-- The number of months is the least one, from one up, whose 30-day months cover the stay.
pub duration_months_least :
    (start finish n : ℕ)
    → (finish ≤ start + duration_months start finish * (30 * day_ms))
      × (1 ≤ duration_months start finish)
      × (1 ≤ n → finish ≤ start + n * (30 * day_ms) → duration_months start finish ≤ n)
unfolding duration_months
duration_months_least start finish n = (omega arith, omega arith, λ pos cover. omega arith)
