-- ===== src/Controllers/Horizon/Examples.antt =====
-- Horizons of a lease of an hour, in nanoseconds.
use vault_secrets_operator.Base.{◌≡◌, refl, ℕ, ◌*◌, ◌≤◌, ◌<◌, ◌⊎◌}
use vault_secrets_operator.Controllers.Horizon.{
  round_from, ten_percent, max_horizon, jitter_below, compute_max_jitter_with_percent,
  compute_max_jitter, compute_horizon_with_jitter, cap_renewal_percent, compute_start_renewing_at,
  compute_dynamic_horizon_with_jitter,
}
use vault_secrets_operator.Controllers.Horizon.Bounds.{horizon_bounds}

abbrev hour : ℕ
hour = 3_600_000_000_000

start_of_hour : compute_start_renewing_at hour 67 ≡ 2_412_000_000_000
unfolding compute_start_renewing_at round_from cap_renewal_percent
start_of_hour = refl

-- In floating point a tenth of 30 is not below 3, and 29 percent of 100 is 29.
tenth : max_horizon 30 ten_percent ≡ 3
unfolding max_horizon round_from
tenth = refl

start_29 : compute_start_renewing_at 100 29 ≡ 29
unfolding compute_start_renewing_at round_from cap_renewal_percent
start_29 = refl

capped : compute_start_renewing_at 100 95 ≡ 90
unfolding compute_start_renewing_at round_from cap_renewal_percent
capped = refl

with_jitter : compute_dynamic_horizon_with_jitter hour 67 1_000 ≡ 2_771_999_999_000
unfolding compute_dynamic_horizon_with_jitter compute_max_jitter compute_max_jitter_with_percent
    compute_start_renewing_at max_horizon jitter_below round_from cap_renewal_percent
with_jitter = refl

horizon_bounds_example :
    (compute_start_renewing_at hour 67 ≤ compute_dynamic_horizon_with_jitter hour 67 5)
    × ((max_horizon hour ten_percent ≡ 0)
        ⊎ (compute_start_renewing_at hour 67 < compute_dynamic_horizon_with_jitter hour 67 5))
    × (100_000_000_000_000 * compute_dynamic_horizon_with_jitter hour 67 5
        ≤ 100_000_000_000_001 * hour)
    × (compute_horizon_with_jitter hour 5 ≤ hour)
    × (79_999_999_999_999 * hour ≤ 100_000_000_000_000 * compute_horizon_with_jitter hour 5)
horizon_bounds_example = horizon_bounds hour 67 5
