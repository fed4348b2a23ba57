-- ===== src/Vault/Responses.antt =====
-- vault/responses.go: what Vault answers.
use vault_secrets_operator.Base.{
  ℕ, String, Bool, false, ◌&&◌, Option, none, some, List, [], ◌∷◌, ◌==◌, text_key, nat_eq,
}
use vault_secrets_operator.Base.Map.{Map, get}
use vault_secrets_operator.Base.Result.{Result, err}
use vault_secrets_operator.Api.Secret.{Bytes}
use vault_secrets_operator.Api.DynamicSecret.{Lease}
use vault_secrets_operator.Common.Errors.{Error, vault_response, joined, nil_raw}
use vault_secrets_operator.Helpers.Filter.{SecretTransformationOption}

mutual
  -- A JSON value of a response's data: a number is a json.Number or, in a response that was not
  -- read from JSON, an int.
  pub data Value : Type 0 where
    text : String → Value
    json_number : String → Value
    int : ℕ → Value
    boolean : Bool → Value
    null : Value
    object : Entries → Value
    other : Value

  pub data Entries : Type 0 where
    empty : Entries
    entry : String → Value → Entries → Entries

unfoldable pub entries : Entries → Map String Value
entries empty = []
entries (entry k v es) = (k, v) ∷ entries es

-- api.Secret
pub record ApiSecret : Type 0 where
  pub lease : Lease
  pub contents : Map String Value  -- Data

-- The implementations of Response. Their secret can be nil.
pub data Response : Type 0 where
  default_response kv_v1_response kv_v2_response : Option ApiSecret → Response

unfoldable pub secret : Response → Option ApiSecret
secret (default_response s) = s
secret (kv_v1_response s) = s
secret (kv_v2_response s) = s

-- `r.secret.Data`, and nothing if the secret is nil.
unfoldable pub raw_contents : Option ApiSecret → Map String Value
raw_contents none = []
raw_contents (some s) = s.contents

unfoldable pub nested : Option Value → Map String Value
nested (some (object es)) = entries es
nested _ = []

-- Data()
unfoldable pub contents : Response → Map String Value
contents (default_response s) = raw_contents s
contents (kv_v1_response s) = raw_contents s
contents (kv_v2_response s) = nested (get "data" (raw_contents s))

-- `build` is SecretsDataBuilder.WithVaultData.
module _
    (build : Map String Value
      → Map String Value
      → SecretTransformationOption
      → Result Error (Map String Bytes)) where
  -- The KV secrets engines must answer with data.
  unfoldable pub kv_data :
      Response → Option ApiSecret → SecretTransformationOption → Result Error (Map String Bytes)
  kv_data r none opt = err nil_raw
  kv_data r (some s) opt = build (contents r) s.contents opt

  -- SecretK8sData
  unfoldable pub secret_k8s_data :
      Response → SecretTransformationOption → Result Error (Map String Bytes)
  secret_k8s_data (default_response s) opt =
      build (contents (default_response s)) (raw_contents s) opt
  secret_k8s_data (kv_v1_response s) opt = kv_data (kv_v1_response s) s opt
  secret_k8s_data (kv_v2_response s) opt = kv_data (kv_v2_response s) s opt

unfoldable pub only_lease_not_found : List String → Bool
only_lease_not_found (m ∷ []) = m == "lease not found"
only_lease_not_found _ = false

-- errors.As goes through an error that joins two, to the first that is a response.
unfoldable pub as_response : Error → Option (ℕ × List String)
as_response (vault_response status messages) = some (status, messages)
as_response (joined a b) = elim (as_response a) [ some r ↦ some r | none ↦ as_response b ]
as_response _ = none

unfoldable pub is_lease_not_found_error : Error → Bool
is_lease_not_found_error e = elim (as_response e) [
  | some (status, messages) ↦ nat_eq status 400 && only_lease_not_found messages
  | none ↦ false
]

unfoldable pub is_forbidden_error : Error → Bool
is_forbidden_error e = elim (as_response e) [ some (status, _) ↦ nat_eq status 403 | none ↦ false ]
