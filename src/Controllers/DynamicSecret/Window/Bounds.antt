-- ===== src/Controllers/DynamicSecret/Window/Bounds.antt =====
-- How the times of the next reconciliation lie around the rotation of what was synced.
use vault_secrets_operator.Base.{ℕ, ◌+◌, ◌≤◌, ◌<◌, ◌≡◌, ◌⊎◌, refl, true, false, arith}
use vault_secrets_operator.Api.DynamicSecret.{DynamicSecret}
use vault_secrets_operator.Controllers.Horizon.{
  five_percent, round_from, max_horizon, compute_max_jitter_with_percent,
}
use vault_secrets_operator.Controllers.Horizon.Bounds.{jitter_below-le}
use vault_secrets_operator.Controllers.Reconciler.{Reconciler}
use vault_secrets_operator.Controllers.DynamicSecret.Creds.{is_static_creds}
use vault_secrets_operator.Controllers.DynamicSecret.Window.{
  static_creds_jitter_horizon, get_rotation_duration, static_horizon, static_jitter,
  compute_post_sync_horizon, compute_rotation_time, at_least, compute_relative_horizon_with_jitter,
}

max_static_jitter : max_horizon static_creds_jitter_horizon five_percent ≡ 150_000_000
unfolding max_horizon round_from
max_static_jitter = refl

module _ (r : Reconciler) where
  static_jitter-lt : (i : ℕ) → static_jitter r i < 150_000_000
  unfolding compute_max_jitter_with_percent
  static_jitter-lt i = ground (
    arith,
    max_static_jitter,
    jitter_below-le (max_horizon static_creds_jitter_horizon five_percent) (r.random i),
  )

  -- Static credentials are read again at or after the second in which they are rotated, less than
  -- 650 milliseconds later, or if no time is left to it then within 1.15 seconds; after a restart of
  -- the operator they are read at or after the rotation too, and not before the minimal wait.
  pub static_rotation_bounds :
      (o : DynamicSecret) (min : ℕ)
      → o.spec.allow_static_creds ≡ true
      → is_static_creds o.status.static_creds ≡ true
      → let d = get_rotation_duration r o in
        let post = compute_post_sync_horizon r o in
        let relative = (compute_relative_horizon_with_jitter r o min).0 in
        (d ≤ post)
        × (0 < post)
        × ((d ≡ 0) ⊎ (post < d + 650_000_000))
        × (post < d + 1_150_000_000)
        × (compute_rotation_time r o ≤ r.now + relative)
        × (min ≤ relative)
  unfolding compute_post_sync_horizon static_horizon compute_relative_horizon_with_jitter at_least
  static_rotation_bounds o min h s = ground (arith, static_jitter-lt 1)

  -- A lease is looked at again no later than its renewal is due, or after the minimal wait.
  pub lease_wait_bounds :
      (o : DynamicSecret) (min : ℕ)
      → o.spec.allow_static_creds ≡ false
      → let relative = (compute_relative_horizon_with_jitter r o min).0 in
        (relative ≤ min) ⊎ (r.now + relative ≤ compute_rotation_time r o)
  unfolding compute_relative_horizon_with_jitter at_least
  lease_wait_bounds o min h = ground arith
