-- ===== src/Controllers/PkiSecret/Window/Bounds.antt =====
-- When a certificate is looked at again.
use vault_secrets_operator.Base.{
  ℕ, ◌+◌, ◌/◌, ◌≤◌, ◌<◌, ◌≡◌, ◌↔◌, ◌⊎◌, inl, inr, String, true, arith, ltb, Bool-cases,
}
use vault_secrets_operator.Base.Result.{Result}
use vault_secrets_operator.Common.Errors.{Error}
use vault_secrets_operator.Api.PkiSecret.{PkiSecret}
use vault_secrets_operator.Controllers.Horizon.{
  Duration, compute_max_jitter_with_percent, is_in_window,
}
use vault_secrets_operator.Controllers.PkiSecret.Window.{
  expiry_offset, compute_expiration_time_pki, base_horizon, compute_pki_renewal_window,
}

-- A certificate is renewed exactly if less than a second is left to its rotation time, which is its
-- expiration less the offset. Before that, it is looked at again at or after the rotation time if
-- there is an offset, and at or before its expiration if there is none; once it is to be renewed, no
-- sooner than in a second.
pub renewal_window_bounds :
    (parse : String → Result Error Duration) (now random : ℕ) (o : PkiSecret)
    → let (horizon, in_window) = compute_pki_renewal_window parse now random o in
      let rotation = compute_expiration_time_pki o (expiry_offset parse o / 1_000_000_000) in
      ((in_window ≡ true) ↔ (rotation < now + 1_000_000_000))
      × ((in_window ≡ true) × (1_000_000_000 ≤ horizon)
          ⊎ ((0 < expiry_offset parse o) × (rotation ≤ now + horizon)
              ⊎ ((expiry_offset parse o ≡ 0) × (now + horizon ≤ rotation))))
unfolding compute_pki_renewal_window base_horizon compute_max_jitter_with_percent is_in_window
renewal_window_bounds parse now random o =
    let offset = expiry_offset parse o in
    let rotation = compute_expiration_time_pki o (offset / 1_000_000_000) in
    (
      ground arith,
      elim (Bool-cases (base_horizon now rotation).1) [
        | inl due ↦ inl (ground arith, ground arith)
        | inr early ↦ elim (Bool-cases (ltb 0 offset)) [
          | inl positive ↦ inr (inl (ground arith, ground arith))
          | inr zero_offset ↦ inr (inr (ground arith, ground arith))
        ]
      ],
    )
