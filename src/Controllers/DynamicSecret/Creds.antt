-- ===== src/Controllers/DynamicSecret/Creds.antt =====
-- controllers/vaultdynamicsecret_controller.go: the meta-data of static credentials.
use vault_secrets_operator.Base.{
  ℕ, String, Bool, not, ◌&&◌, ◌||◌, Option, none, some, ◌==◌, text_key, ltb, leb,
}
use vault_secrets_operator.Base.Map.{Map, get}
use vault_secrets_operator.Base.Result.{Result, ok, err}
use vault_secrets_operator.Api.DynamicSecret.{StaticCreds}
use vault_secrets_operator.Common.Errors.{
  Error, invalid_last_vault_rotation, invalid_rotation_period, invalid_ttl,
}
use vault_secrets_operator.Vault.Responses.{Value, text, json_number, int, null}
use vault_secrets_operator.Controllers.Reconciler.{Failure, failed, panicked}

-- isStaticCreds
unfoldable pub is_static_creds : StaticCreds → Bool
is_static_creds m =
    ltb 0 m.last_vault_rotation && (leb 1 m.rotation_period || not (m.rotation_schedule == ""))

module _ (parse_time parse_int : String → Result Error ℕ) where
  -- The type assertion of `last_vault_rotation` is unchecked.
  unfoldable pub rotation_time : Option Value → Result Failure ℕ
  rotation_time none = ok 0
  rotation_time (some null) = ok 0
  rotation_time (some (text t)) = elim (parse_time t) [
    | ok seconds ↦ ok seconds
    | err e ↦ err (failed (invalid_last_vault_rotation e))
  ]
  rotation_time (some _) = err panicked

  -- `rotation_period` and `ttl`, with the error for a value that is no number.
  unfoldable pub whole : Error → Option Value → Result Failure ℕ
  whole invalid none = ok 0
  whole invalid (some null) = ok 0
  whole invalid (some (json_number t)) = elim (parse_int t) [ ok n ↦ ok n | err e ↦ err (failed e) ]
  whole invalid (some (int n)) = ok n
  whole invalid (some _) = err (failed invalid)

  unfoldable pub schedule : Option Value → String
  schedule (some (text t)) = t
  schedule _ = ""

  unfoldable pub vault_static_creds_meta_data_from_data :
      Map String Value → Result Failure StaticCreds
  vault_static_creds_meta_data_from_data m = elim (rotation_time (get "last_vault_rotation" m)) [
    | err e ↦ err e
    | ok rotated ↦ elim (whole invalid_rotation_period (get "rotation_period" m)) [
      | err e ↦ err e
      | ok period ↦ elim (whole invalid_ttl (get "ttl" m)) [
        | err e ↦ err e
        | ok seconds ↦ ok (record {
          last_vault_rotation = rotated;
          rotation_period = period;
          rotation_schedule = schedule (get "rotation_schedule" m);
          ttl = seconds;
        })
      ]
    ]
  ]
