-- ===== src/Controllers/DynamicSecret/Window.antt =====
-- controllers/vaultdynamicsecret_controller.go: when a VaultDynamicSecret is reconciled again.
pub mod Bounds
use vault_secrets_operator.Base.{
  ℕ, ◌+◌, ◌-◌, ◌*◌, String, Bool, true, false, ◌==◌, text_key, ltb, nat_eq, if◌then◌else◌,
}
use vault_secrets_operator.Base.Result.{Result, ok, err}
use vault_secrets_operator.Api.DynamicSecret.{DynamicSecret}
use vault_secrets_operator.Controllers.Horizon.{
  five_percent, compute_max_jitter_with_percent, compute_start_renewing_at,
  compute_dynamic_horizon_with_jitter, parse_duration_string,
}
use vault_secrets_operator.Controllers.Reconciler.{Reconciler}
use vault_secrets_operator.Controllers.DynamicSecret.Creds.{is_static_creds}

abbrev pub second : ℕ
second = 1_000_000_000

-- staticCredsJitterHorizon
abbrev pub static_creds_jitter_horizon : ℕ
static_creds_jitter_horizon = 3 * second

module _ (r : Reconciler) where
  open r use {parse_duration, now, random}

  -- A duration that is not read is 0.
  unfoldable pub refresh_after : DynamicSecret → ℕ
  refresh_after o = elim (parse_duration_string parse_duration o.spec.refresh_after 0) [
    | ok d ↦ d
    | err _ ↦ 0
  ]

  -- The duration of a lease, or without one that of refreshAfter.
  unfoldable pub leased_duration : DynamicSecret → ℕ
  leased_duration o =
      let d = o.status.secret_lease.lease_duration * second in
      if nat_eq d 0 then (if o.spec.refresh_after == "" then d else refresh_after o) else d

  unfoldable pub get_rotation_duration : DynamicSecret → ℕ
  get_rotation_duration o =
      if o.spec.allow_static_creds then o.status.static_creds.ttl * second else leased_duration o

  -- The horizon of static credentials: after the rotation, and half a second later if it has no
  -- schedule.
  unfoldable pub static_horizon : DynamicSecret → ℕ
  static_horizon o =
      let d = get_rotation_duration o in
      if nat_eq d 0
      then second
      else if ltb 0 o.status.static_creds.rotation_period
      then d + 500_000_000
      else d

  abbrev pub static_jitter : ℕ → ℕ
  static_jitter i =
      (compute_max_jitter_with_percent static_creds_jitter_horizon five_percent (random i)).1

  -- computePostSyncHorizon
  unfoldable pub compute_post_sync_horizon : DynamicSecret → ℕ
  compute_post_sync_horizon o =
      if o.spec.allow_static_creds
      then (if is_static_creds o.status.static_creds then static_horizon o + static_jitter 1 else 0)
      else compute_dynamic_horizon_with_jitter (get_rotation_duration o) o.spec.renewal_percent
          (random 1)

  -- computeRotationTime, in nanoseconds.
  unfoldable pub compute_rotation_time : DynamicSecret → ℕ
  compute_rotation_time o =
      let d = get_rotation_duration o in
      if o.spec.allow_static_creds
      then o.status.static_creds.last_vault_rotation * second + d
      else o.status.last_renewal_time * second + compute_start_renewing_at d o.spec.renewal_percent

  -- The second result of computeRelativeHorizon.
  unfoldable pub in_window : DynamicSecret → Bool
  in_window o =
      if o.spec.allow_static_creds
      then ltb now (compute_rotation_time o)
      else ltb (compute_rotation_time o) now

  -- The first is compared with a minimum that is not negative, and so can stop at 0.
  unfoldable pub at_least : DynamicSecret → ℕ → ℕ
  at_least o min =
      let horizon = compute_rotation_time o - now in if ltb horizon min then min else horizon

  -- computeRelativeHorizonWithJitter
  unfoldable pub compute_relative_horizon_with_jitter : DynamicSecret → ℕ → ℕ × Bool
  compute_relative_horizon_with_jitter o min =
      let horizon = at_least o min in
      (
        if o.spec.allow_static_creds
            then horizon + static_jitter 0
            else horizon - (compute_max_jitter_with_percent horizon five_percent (random 0)).1,
        in_window o,
      )
