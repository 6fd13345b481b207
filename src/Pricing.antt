-- ===== src/Pricing.antt =====
-- backend/src/common/utils/addon-pricing.util.ts, and BookingService.durationMonths.
mod Laws
use pfe.Base.{ℕ, ◌+◌, ◌-◌, ◌*◌, ◌/◌, max, times_double}
use pfe.Schema.{BillingCycle, hourly, daily, monthly}

-- `addonUnitPriceForLease`
unfoldable pub addon_unit_price_for_lease : ℕ → BillingCycle → ℕ → ℕ
addon_unit_price_for_lease base_price monthly duration_months =
    times_double (max 1 duration_months) base_price
addon_unit_price_for_lease base_price daily duration_months =
    times_double 30 (times_double (max 1 duration_months) base_price)
addon_unit_price_for_lease base_price hourly duration_months =
    times_double 8 (times_double 30 (times_double (max 1 duration_months) base_price))
addon_unit_price_for_lease base_price _ duration_months = base_price

-- `addonLineTotal`
unfoldable pub addon_line_total : ℕ → ℕ → ℕ
addon_line_total quantity unit_price = times_double quantity unit_price

abbrev pub day_ms : ℕ
day_ms = 86400000

-- `durationMonths`: `ceil(max(1, days) / 30)`, at least 1, on milliseconds. An end before the start
-- is no longer than a day, and `-` stops at 0.
unfoldable pub duration_months : ℕ → ℕ → ℕ
duration_months start finish =
    max 1 ((max day_ms (finish - start) + (30 * day_ms - 1)) / (30 * day_ms))
