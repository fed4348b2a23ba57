-- ===== src/Vault/Requests.antt =====
-- vault/requests.go: what is asked of Vault.
use Prim.Native.String
use vault_secrets_operator.Base.{ℕ, String, List, [], ◌∷◌, ltb, if◌then◌else◌}
use vault_secrets_operator.Base.Map.{Map}

-- JoinPath of two parts.
unfoldable pub join_path : String → String → String
join_path mount path = String.◌++◌ mount (String.◌++◌ "/" path)

-- The implementations of ReadRequest; the first is made without values.
pub data ReadRequest : Type 0 where
  default_read_request : String → ReadRequest
  kv_read_request_v1 : String → String → ReadRequest
  kv_read_request_v2 : String → String → ℕ → ReadRequest

-- Path()
unfoldable pub path : ReadRequest → String
path (default_read_request p) = p
path (kv_read_request_v1 mount p) = join_path mount p
path (kv_read_request_v2 mount p version) = join_path mount (join_path "data" p)

-- Values(); `decimal` is strconv.Itoa.
unfoldable pub values : (ℕ → String) → ReadRequest → Map String (List String)
values decimal (kv_read_request_v2 mount p version) =
    if ltb 0 version then ("version", decimal version ∷ []) ∷ [] else []
values decimal _ = []
