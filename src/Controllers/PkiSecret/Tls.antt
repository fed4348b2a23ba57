-- ===== src/Controllers/PkiSecret/Tls.antt =====
-- controllers/vaultpkisecret_controller.go: convertToK8sTLSSecretData.
use vault_secrets_operator.Base.{String, Option, none, some, [], ◌∷◌, ◌++◌, text_key}
use vault_secrets_operator.Base.Map
use vault_secrets_operator.Base.Map.{Map}
use vault_secrets_operator.Api.Secret.{Bytes}

-- `if v, ok := from[name]; ok { to[new] = v }`
unfoldable pub copy_entry : String → String → Map String Bytes → Map String Bytes → Map String Bytes
copy_entry name new from to = elim (Map.get name from) [ some v ↦ Map.put new v to | none ↦ to ]

-- An entry that is there and is not empty.
unfoldable pub not_empty : Option Bytes → Option Bytes
not_empty none = none
not_empty (some []) = none
not_empty (some (b ∷ bs)) = some (b ∷ bs)

-- The certificate with what it is signed by, after a line feed.
unfoldable pub append_ca : Bytes → Map String Bytes → Map String Bytes
append_ca ca m = elim (Map.get "tls.crt" m) [
  | none ↦ m
  | some crt ↦ Map.put "tls.crt" (crt ++ (10 ∷ ca)) m
]

unfoldable pub convert_to_k8s_tls_secret_data : Map String Bytes → Map String Bytes
convert_to_k8s_tls_secret_data m =
    let ret = copy_entry "private_key" "tls.key" m (copy_entry "certificate" "tls.crt" m m) in
    elim (not_empty (Map.get "ca_chain" m)) [
      | some ca ↦ append_ca ca ret
      | none ↦ elim (not_empty (Map.get "issuing_ca" m)) [
        | some ca ↦ append_ca ca (Map.put "ca.crt" ca ret)
        | none ↦ ret
      ]
    ]
