-- ===== src/Controllers/Horizon.antt =====
-- controllers/common.go: when a lease is renewed, and the random jitter that keeps the operator's
-- requests apart. A duration is a number of nanoseconds.
pub mod Bounds
mod Examples
use vault_secrets_operator.Base.{
  ℕ, zero, suc, ◌+◌, ◌-◌, ◌*◌, ◌/◌, ◌%◌, ◌^◌, Bool, true, false, ◌&&◌, ◌||◌, not, String, ◌==◌,
  text_key, nat_eq, ltb, leb, if◌then◌else◌,
}
use vault_secrets_operator.Base.Result.{Result, ok, err, ◌>>=◌}
use vault_secrets_operator.Common.Errors.{Error, invalid_duration, below_minimum}

abbrev pub is_odd : ℕ → Bool
is_odd q = nat_eq (q % 2) 1

-- The rounding of a float64 to 53 bits, to the nearest and in a tie to even: `q` is halved until
-- it fits, `guard` is the last bit that was dropped and `sticky` tells of those before it.
unfoldable pub round_from : ℕ → ℕ → Bool → Bool → ℕ
round_from zero q guard sticky = q
round_from (suc fuel) q guard sticky =
    let rest = round_from fuel (q / 2) (is_odd q) (sticky || guard) in
    if ltb q 9_007_199_254_740_992
    then (if guard && (sticky || is_odd q) then q + 1 else q)
    else 2 * rest

-- A number that is halved is below 2^53 before as many halvings as the number itself.
abbrev pub round : ℕ → Bool → ℕ
round q sticky = round_from q q false sticky

-- float64(n)
abbrev pub float : ℕ → ℕ
float n = round n false

-- A positive float64 constant: the mantissa, over a power of two.
pub record Fraction : Type 0 where
  pub mantissa : ℕ
  pub denominator : ℕ

-- 0.10
abbrev pub ten_percent : Fraction
ten_percent = record { mantissa = 7_205_759_403_792_794; denominator = 72_057_594_037_927_936 }

-- 0.05
abbrev pub five_percent : Fraction
five_percent = record { mantissa = 7_205_759_403_792_794; denominator = 144_115_188_075_855_872 }

-- uint64(percent * float64(nanos))
unfoldable pub max_horizon : ℕ → Fraction → ℕ
max_horizon nanos percent = float (percent.mantissa * float nanos) / percent.denominator

-- The jitter below a maximum, from a random number.
unfoldable pub jitter_below : ℕ → ℕ → ℕ
jitter_below zero random = 0
jitter_below (suc u) random = random % suc u

-- computeMaxJitterWithPercent, whose first result is used after a conversion to a whole number of
-- nanoseconds alone.
unfoldable pub compute_max_jitter_with_percent : ℕ → Fraction → ℕ → ℕ × ℕ
compute_max_jitter_with_percent duration percent random =
    (max_horizon duration percent, jitter_below (max_horizon duration percent) random)

unfoldable pub compute_max_jitter : ℕ → ℕ → ℕ × ℕ
compute_max_jitter duration random = compute_max_jitter_with_percent duration ten_percent random

unfoldable pub compute_horizon_with_jitter : ℕ → ℕ → ℕ
compute_horizon_with_jitter min_duration random =
    let (max, jitter) = compute_max_jitter min_duration random in min_duration - (max + jitter)

-- A RenewalPercent is at least 0 by the schema of the custom resource.
unfoldable pub cap_renewal_percent : ℕ → ℕ
cap_renewal_percent percent = if ltb 90 percent then 90 else percent

-- The quotient by 100 is rounded from 64 more bits and the remainder.
unfoldable pub compute_start_renewing_at : ℕ → ℕ → ℕ
compute_start_renewing_at lease_duration percent =
    let scaled =
      float (float lease_duration * cap_renewal_percent percent) * 18_446_744_073_709_551_616 in
    round (scaled / 100) (not (nat_eq (scaled % 100) 0)) / 18_446_744_073_709_551_616

unfoldable pub compute_dynamic_horizon_with_jitter : ℕ → ℕ → ℕ → ℕ
compute_dynamic_horizon_with_jitter lease_duration percent random =
    let (max, jitter) = compute_max_jitter lease_duration random in
    compute_start_renewing_at lease_duration percent + max - jitter

-- What time.ParseDuration reads.
pub data Duration : Type 0 where
  nanoseconds : ℕ → Duration
  negative : Duration

-- `parse` is time.ParseDuration.
unfoldable pub parse_duration_string :
    (String → Result Error Duration) → String → ℕ → Result Error ℕ
parse_duration_string parse duration min = if duration == "" then ok 0 else elim (parse duration) [
  | err e ↦ err (invalid_duration duration e)
  | ok negative ↦ err (below_minimum duration min)
  | ok (nanoseconds d) ↦ if ltb d min then err (below_minimum duration min) else ok d
]

-- isInWindow, for two times in nanoseconds.
unfoldable pub is_in_window : ℕ → ℕ → Bool
is_in_window t1 t2 = ltb t2 t1 || nat_eq t1 t2
