-- ===== src/Budgets/Money.antt =====
-- The arithmetic of backend/app/modules/budgets/guard.py. Amounts, prices and unit counts are naturals:
-- `quote` and `quote_usage` refuse negative ones, and no rate card or usage record holds one.
use truyenaudio_studio.Prelude.{ℕ, ◌+◌, ◌-◌, ◌*◌, ◌/◌, ◌≤◌, ◌<◌, arith}

abbrev pub fx_rate_vnd_per_usd : ℕ
fx_rate_vnd_per_usd = 26500

abbrev pub contingency_percent : ℕ
contingency_percent = 15

abbrev pub regular_cap_vnd : ℕ
regular_cap_vnd = 400000

abbrev pub qa_repair_reserve_vnd : ℕ
qa_repair_reserve_vnd = 50000

abbrev pub rerender_reserve_vnd : ℕ
rerender_reserve_vnd = 50000

abbrev pub hard_limit_vnd : ℕ
hard_limit_vnd = 500000

abbrev pub warning_threshold_vnd : ℕ
warning_threshold_vnd = 350000

abbrev pub quote_ttl_minutes : ℕ
quote_ttl_minutes = 10

-- -(-numerator // denominator): the quotient rounded up.
abbrev pub ceil_div : ℕ → ℕ → ℕ
ceil_div numerator denominator = (numerator + (denominator - 1)) / denominator

abbrev pub contingency : ℕ → ℕ
contingency estimate_vnd = ceil_div (estimate_vnd * contingency_percent) 100

abbrev pub usd_micros : ℕ → ℕ → ℕ
usd_micros price_usd_micros_per_million_units measured_units =
    ceil_div (price_usd_micros_per_million_units * measured_units) 1000000

abbrev pub vnd_from_usd_micros : ℕ → ℕ
vnd_from_usd_micros micros = ceil_div (micros * fx_rate_vnd_per_usd) 1000000

-- Rounding is up and by less than one unit: the contingency covers fifteen percent of the estimate, and
-- it is the least amount in dong that does.
pub contingency_least :
    (estimate_vnd : ℕ)
    → (estimate_vnd * 15 ≤ contingency estimate_vnd * 100)
      × (contingency estimate_vnd * 100 < estimate_vnd * 15 + 100)
contingency_least n = (omega arith, omega arith)
