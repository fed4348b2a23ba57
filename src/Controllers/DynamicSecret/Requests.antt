-- ===== src/Controllers/DynamicSecret/Requests.antt =====
-- controllers/vaultdynamicsecret_controller.go: doVault and renewLease.

use vault_secrets_operator.Base.{
  String, ◌||◌, Option, none, some, [], ◌∷◌, ◌==◌, text_key, ltb, if◌then◌else◌,
}
use vault_secrets_operator.Base.Map.{Map, put}
use vault_secrets_operator.Base.Result.{Result, ok, err}
use vault_secrets_operator.Api.DynamicSecret.{DynamicSecret, Lease, ClientMeta}
use vault_secrets_operator.Common.Errors.{Error, unsupported_method, nil_response, lease_truncated}
use vault_secrets_operator.Vault.Requests.{join_path, default_read_request}
use vault_secrets_operator.Vault.Responses.{Value, text, int, Response, ApiSecret, secret}
use vault_secrets_operator.Controllers.Reconciler.{Reconciler, Failure, failed, panicked}

-- The loop over o.Spec.Params.
unfoldable pub request_params : Map String String → Map String Value
request_params [] = []
request_params ((k, v) ∷ m) = put k (text v) (request_params m)

-- The method: PUT if there are parameters, and GET if none is set.
unfoldable pub request_method : DynamicSecret → String
request_method o = elim o.spec.params [
  | _ ∷ _ ↦ "PUT"
  | [] ↦ if o.spec.request_http_method == "" then "GET" else o.spec.request_http_method
]

-- getVaultSecretLease, which dereferences the secret.
unfoldable pub get_vault_secret_lease : Option ApiSecret → Result Failure Lease
get_vault_secret_lease none = err panicked
get_vault_secret_lease (some s) = ok s.lease

module _ (r : Reconciler) where
  open r use {factory}

  -- The request that doVault makes.
  unfoldable pub request :
      ClientMeta → DynamicSecret → factory.Vault → factory.Vault × Result Error (Option Response)
  request c o v =
      let path = join_path o.spec.mount o.spec.path in
      let method = request_method o in
      if method == "PUT" || method == "POST"
      then factory.write c path (request_params o.spec.params) v
      else if method == "GET"
      then factory.read c (default_read_request path) v
      else (v, err (unsupported_method method))

  unfoldable pub do_vault :
      ClientMeta → DynamicSecret → factory.Vault → factory.Vault × Result Failure Response
  do_vault c o v =
      let (v', answered) = request c o v in
      elim answered [
        | err e ↦ (v', err (failed e))
        | ok none ↦ (v', err (failed nil_response))
        | ok (some response) ↦ (v', ok response)
      ]

  -- A lease that is shorter than what was asked for counts as a failure.
  unfoldable pub renewed : Lease → Option Response → Result Failure Lease
  renewed old none = err panicked
  renewed old (some response) = elim (get_vault_secret_lease (secret response)) [
    | err e ↦ err e
    | ok new ↦
        if ltb new.lease_duration old.lease_duration
        then err (failed (lease_truncated old.lease_duration new.lease_duration))
        else ok new
  ]

  unfoldable pub renew_lease :
      ClientMeta → DynamicSecret → factory.Vault → factory.Vault × Result Failure Lease
  renew_lease c o v =
      let old = o.status.secret_lease in
      let (v', answered) =
        factory.write c "/sys/leases/renew"
          (("lease_id", text old.id) ∷ ("increment", int old.lease_duration) ∷ []) v in
      elim answered [ err e ↦ (v', err (failed e)) | ok response ↦ (v', renewed old response) ]
