-- ===== src/Controllers/Horizon/Bounds.antt =====
-- How far the horizons of controllers/common.go lie from the durations that they are computed from.
use native.Mathlib.Decide.{dec_lt}
use native.Mathlib.Nat.{mod-lt, mul-le-mul_left}
use vault_secrets_operator.Base.{
  ℕ, zero, suc, ◌+◌, ◌*◌, ◌/◌, ◌%◌, ◌≤◌, ◌<◌, ◌≡◌, Bool, true, false, ◌||◌, not, nat_eq, arith,
  refl, ◌≢◌, ◌⊎◌,
}
use vault_secrets_operator.Controllers.Horizon.{
  round_from, round, float, is_odd, ten_percent, max_horizon, jitter_below,
  compute_max_jitter_with_percent, compute_max_jitter, compute_horizon_with_jitter,
  cap_renewal_percent, compute_start_renewing_at, compute_dynamic_horizon_with_jitter,
}

-- Rounding adds half a unit of the last of 53 bits at most.
abbrev slack : Bool → ℕ
slack true = 4_503_599_627_370_496
slack false = 0

round_from-le :
    (fuel q : ℕ) (guard sticky : Bool)
    → 4_503_599_627_370_496 ≤ q
    → 9_007_199_254_740_992 * round_from fuel q guard sticky
      ≤ 9_007_199_254_740_993 * q + slack guard
unfolding round_from
round_from-le zero q guard sticky h = omega arith
round_from-le (suc fuel) q guard sticky h =
    ground (arith, round_from-le fuel (q / 2) (is_odd q) (sticky || guard))

round_from-eq :
    (fuel q : ℕ) (sticky : Bool) → q < 9_007_199_254_740_992 → round_from fuel q false sticky ≡ q
unfolding round_from
round_from-eq zero q sticky h = refl
round_from-eq (suc fuel) q sticky h = ground arith

round-le :
    (q : ℕ) (sticky : Bool) → 9_007_199_254_740_992 * round q sticky ≤ 9_007_199_254_740_993 * q
round-le q sticky = elim (dec_lt q 9_007_199_254_740_992) [
  | yes small ↦ rw (round_from-eq q q sticky small) (omega arith)
  | no large ↦ ground (arith, round_from-le q q false sticky)
]

max_horizon-le :
    (d : ℕ) → 1_000_000_000_000_000 * max_horizon d ten_percent ≤ 100_000_000_000_001 * d
unfolding max_horizon
max_horizon-le d = omega (arith, round-le d false, round-le (7_205_759_403_792_794 * float d) false)

pub jitter_below-le : (u r : ℕ) → (jitter_below u r ≤ u) × (u ≢ 0 → jitter_below u r < u)
unfolding jitter_below
jitter_below-le zero r = ground arith
jitter_below-le (suc u) r = ground (arith, mod-lt r {m = suc u} (omega arith))

cap_renewal_percent-le : (p : ℕ) → cap_renewal_percent p ≤ 90
unfolding cap_renewal_percent
cap_renewal_percent-le p = ground arith

start-le :
    (d p : ℕ) → 1_000_000_000_000_000 * compute_start_renewing_at d p ≤ 900_000_000_000_001 * d
unfolding compute_start_renewing_at
start-le d p =
    let capped = float d * cap_renewal_percent p in
    let scaled = float capped * 18_446_744_073_709_551_616 in
    let sticky = not (nat_eq (scaled % 100) 0) in
    let most = mul-le-mul_left (float d) (cap_renewal_percent-le p) in
    omega (arith, most, round-le d false, round-le capped false, round-le (scaled / 100) sticky)

-- The horizon of a lease is at or after the time from which it may be renewed, after it if the
-- greatest jitter is not 0, and before the lease ends, but for one part in 10^14 of rounding; the
-- horizon of a wait is between 80 and 100 percent of it, but for as much.
pub horizon_bounds :
    (d p r : ℕ)
    → (compute_start_renewing_at d p ≤ compute_dynamic_horizon_with_jitter d p r)
      × ((max_horizon d ten_percent ≡ 0)
          ⊎ (compute_start_renewing_at d p < compute_dynamic_horizon_with_jitter d p r))
      × (100_000_000_000_000 * compute_dynamic_horizon_with_jitter d p r ≤ 100_000_000_000_001 * d)
      × (compute_horizon_with_jitter d r ≤ d)
      × (79_999_999_999_999 * d ≤ 100_000_000_000_000 * compute_horizon_with_jitter d r)
unfolding compute_dynamic_horizon_with_jitter compute_horizon_with_jitter compute_max_jitter
    compute_max_jitter_with_percent
horizon_bounds d p r =
    let max = max_horizon d ten_percent in
    ground
      (arith, start-le d p, max_horizon-le d, (jitter_below-le max r).0, (jitter_below-le max r).1)
