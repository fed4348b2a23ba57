-- ===== src/Controllers/DynamicSecret/Rotation.antt =====
-- controllers/vaultdynamicsecret_controller.go: awaitVaultSecretRotation.
pub mod Fresh
use vault_secrets_operator.Base.{
  ℕ, zero, suc, String, Bool, true, false, not, ◌&&◌, ◌||◌, Option, none, some, ◌==◌, text_key,
  nat_eq, leb, if◌then◌else◌, ◌≡◌,
}
use vault_secrets_operator.Base.Result.{Result, ok, err}
use vault_secrets_operator.Api.DynamicSecret.{DynamicSecret, StaticCreds, ClientMeta}
use vault_secrets_operator.Common.Errors.{Error, near_rotation, not_rotated}
use vault_secrets_operator.Vault.Responses.{Response, contents}
use vault_secrets_operator.Controllers.Reconciler.{Reconciler, Failure, failed}
use vault_secrets_operator.Controllers.DynamicSecret.Creds.{
  is_static_creds, vault_static_creds_meta_data_from_data,
}
use vault_secrets_operator.Controllers.DynamicSecret.Requests.{do_vault}

-- Whether the last sync was in the same rotation of the same schedule.
unfoldable pub in_last_sync_rotation : StaticCreds → StaticCreds → Bool
in_last_sync_rotation last m =
    nat_eq last.last_vault_rotation m.last_vault_rotation
    && (not (last.rotation_schedule == "") && last.rotation_schedule == m.rotation_schedule)

-- The early returns: only the credentials of a schedule are waited for.
unfoldable pub must_await : StaticCreds → StaticCreds → Bool
must_await last m =
    is_static_creds m && (not (m.rotation_schedule == "") && in_last_sync_rotation last m)

-- `retryError`: `m` is what the wait began with and `new` what was read now.
unfoldable pub retry_error : StaticCreds → StaticCreds → StaticCreds → Option Error
retry_error last m new =
    if nat_eq new.last_vault_rotation m.last_vault_rotation
    then (if leb new.ttl 2
        then some near_rotation
        else if leb last.ttl new.ttl
        then some not_rotated
        else none)
    else none

module _ (r : Reconciler) where
  open r use {factory, parse_time, parse_int}

  -- Vault's state, and the variables that the retried function assigns.
  pub record Wait : Type 0 where
    pub vault : factory.Vault
    pub response : Response
    pub creds : StaticCreds

  abbrev pub Operation : Type 0
  Operation = Wait → Wait × Option Failure

  abbrev pub meta_data : Response → Result Failure StaticCreds
  meta_data response =
      vault_static_creds_meta_data_from_data parse_time parse_int (contents response)

  -- The variables before the first attempt.
  abbrev pub begin_wait : Response → StaticCreds → factory.Vault → Wait
  begin_wait last m v = record { vault = v; response = last; creds = m }

  -- The function that is retried. The response is looked at after a success alone.
  unfoldable pub attempt : ClientMeta → DynamicSecret → StaticCreds → Operation
  attempt c o m w =
      let (v', answered) = do_vault r c o w.vault in
      elim answered [
        | err e ↦ (record w { vault = v' }, some e)
        | ok response ↦ elim (meta_data response) [
          | err e ↦ (record w { vault = v'; response = response }, some e)
          | ok new ↦ elim (retry_error o.status.static_creds m new) [
            | some e ↦ (record w { vault = v'; response = response }, some (failed e))
            | none ↦ (record { vault = v'; response = response; creds = new }, none)
          ]
        ]
      ]

  -- `retry` is backoff.Retry within ten seconds.
  module _ (retry : Operation → Operation) where
    unfoldable pub await_vault_secret_rotation :
        ClientMeta
        → DynamicSecret
        → Response
        → factory.Vault
        → factory.Vault × Result Failure (StaticCreds × Response)
    await_vault_secret_rotation c o last v = elim (meta_data last) [
      | err e ↦ (v, err e)
      | ok m ↦
          if must_await o.status.static_creds m
          then (let (w, left) = retry (attempt c o m) (begin_wait last m v) in
              elim left [ some e ↦ (w.vault, err e) | none ↦ (w.vault, ok (w.creds, w.response)) ])
          else (v, ok (m, last))
    ]
