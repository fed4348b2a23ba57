-- ===== src/Vault/Client.antt =====
-- The interfaces ClientFactory and Client of the vault package, as the reconcilers use them: a
-- client is known by its cache key and ID, and a call changes the state of Vault and the factory.
use vault_secrets_operator.Base.{String, Option}
use vault_secrets_operator.Base.Map.{Map}
use vault_secrets_operator.Base.Result.{Result}
use vault_secrets_operator.Api.Syncable.{Object}
use vault_secrets_operator.Api.DynamicSecret.{ClientMeta}
use vault_secrets_operator.Common.Errors.{Error}
use vault_secrets_operator.Vault.Requests.{ReadRequest}
use vault_secrets_operator.Vault.Responses.{Value, Response}

pub record Factory : Type 1 where
  pub Vault : Type 0
  pub get_client : Object → Vault → Vault × Result Error ClientMeta
  -- A response without an error can be nil.
  pub read : ClientMeta → ReadRequest → Vault → Vault × Result Error (Option Response)
  pub write :
      ClientMeta → String → Map String Value → Vault → Vault × Result Error (Option Response)
  pub taint : ClientMeta → Vault → Vault
