-- ===== src/Controllers/PkiSecret/Window.antt =====
-- controllers/vaultpkisecret_controller.go: computePKIRenewalWindow. Times are in nanoseconds; a
-- certificate that expired before its offset had begun has the rotation time 0.
pub mod Bounds
use vault_secrets_operator.Base.{
  ℕ, ◌+◌, ◌-◌, ◌*◌, ◌/◌, String, Bool, true, false, ◌||◌, ltb, if◌then◌else◌, arith,
}
use vault_secrets_operator.Base.Result.{Result, ok, err}
use vault_secrets_operator.Common.Errors.{Error}
use vault_secrets_operator.Api.PkiSecret.{PkiSecret}
use vault_secrets_operator.Controllers.Horizon.{
  Duration, parse_duration_string, is_in_window, five_percent, compute_max_jitter_with_percent,
}

-- minHorizon
abbrev pub min_horizon : ℕ
min_horizon = 1_000_000_000

-- An invalid offset is tolerated, and is 0.
unfoldable pub expiry_offset : (String → Result Error Duration) → PkiSecret → ℕ
expiry_offset parse o = elim (parse_duration_string parse o.spec.expiry_offset 0) [
  | err e ↦ 0
  | ok d ↦ d
]

-- computeExpirationTimePKI, with the offset in seconds.
unfoldable pub compute_expiration_time_pki : PkiSecret → ℕ → ℕ
compute_expiration_time_pki o offset = (o.status.expiration - offset) * 1_000_000_000

-- Whether it is time, and the horizon without jitter.
unfoldable pub base_horizon : ℕ → ℕ → ℕ × Bool
base_horizon now rotation_time =
    if is_in_window now rotation_time || ltb (rotation_time - now) min_horizon
    then (min_horizon, true)
    else (rotation_time - now, false)

-- The jitter of five percent. The seconds of the offset are whole; the float64 that the code takes
-- them from is exact enough for offsets below 2^23 seconds.
unfoldable pub compute_pki_renewal_window :
    (String → Result Error Duration) → ℕ → ℕ → PkiSecret → ℕ × Bool
compute_pki_renewal_window parse now random o =
    let offset = expiry_offset parse o in
    let (horizon, in_window) =
      base_horizon now (compute_expiration_time_pki o (offset / 1_000_000_000)) in
    let jitter = (compute_max_jitter_with_percent horizon five_percent random).1 in
    (if ltb 0 offset || in_window then horizon + jitter else horizon - jitter, in_window)
