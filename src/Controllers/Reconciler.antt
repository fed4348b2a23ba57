-- ===== src/Controllers/Reconciler.antt =====
-- What the reconcilers of the controllers package are made of.
use vault_secrets_operator.Base.{ℕ, String, Option, List}
use vault_secrets_operator.Base.Map.{Map}
use vault_secrets_operator.Base.Result.{Result}
use vault_secrets_operator.Api.Secret.{Bytes}
use vault_secrets_operator.Api.Syncable.{Object}
use vault_secrets_operator.Kube.Client.{Client}
use vault_secrets_operator.Common.Errors.{Error}
use vault_secrets_operator.Helpers.Filter.{SecretTransformationOption}
use vault_secrets_operator.Helpers.Hmac.{HmacValidator}
use vault_secrets_operator.Vault.Client.{Factory}
use vault_secrets_operator.Vault.Responses.{Value}
use vault_secrets_operator.Controllers.Horizon.{Duration}

-- A call returns an error, or the goroutine panics.
pub data Failure : Type 0 where
  failed : Error → Failure
  panicked : Failure

-- The fields of a reconciler, and the libraries that it calls.
pub record Reconciler : Type 1 where
  pub client : Client
  pub factory : Factory
  pub validator : HmacValidator client.Cluster
  pub hash : Bytes → Bytes → Bytes  -- HMAC with SHA-256
  pub runtime_pod_uid : String
  pub gvk : Object → Option (String × String)
  -- NewSecretTransformationOption with the reconciler's global options, and WithVaultData.
  pub transformation_option : Object → Result (List Error) SecretTransformationOption
  pub build :
      Map String Value
      → Map String Value
      → SecretTransformationOption
      → Result Error (Map String Bytes)
  pub encode : Map String Bytes → Result Error Bytes
  pub decode : String → Result Error Bytes  -- base64
  pub encode_string : Bytes → String  -- base64
  pub parse_duration : String → Result Error Duration
  pub parse_time : String → Result Error ℕ  -- RFC 3339, to Unix seconds
  pub parse_int : String → Result Error ℕ  -- json.Number.Int64
  pub RetryState : Type 0
  pub fresh : RetryState
  pub next : ℕ → RetryState → Option ℕ × RetryState  -- with the draw, see Controllers.BackOff
  -- The clock, in nanoseconds, and the random numbers of one reconciliation.
  pub now : ℕ
  pub random : ℕ → ℕ
