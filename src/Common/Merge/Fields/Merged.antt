-- ===== src/Common/Merge/Fields/Merged.antt =====
-- What the merge of the fields that every method has returns.
use vault_secrets_operator.Base.{
  ◌≡◌, ◌≢◌, inl, inr, String, Option, [], ◌∷◌, arith, ◌==◌, text_key, eq_iff, if◌then◌else◌,
  or_else, length, ltb,
}
use vault_secrets_operator.Base.Map.{Map, get}
use vault_secrets_operator.Base.Result.{ok, Result-cases}
use vault_secrets_operator.Api.Names.{ObjectKey}
use vault_secrets_operator.Api.AuthConfig.{text_or}
use vault_secrets_operator.Api.AuthConfig.Merge.{
  kubernetes_config, jwt_config, app_role_config, aws_config, gcp_config,
}
use vault_secrets_operator.Api.VaultAuth.{VaultAuthSpec, VaultAuthGlobalRef, VaultAuthGlobalSpec}
use vault_secrets_operator.Common.Merge.Config.{MethodDefaults}
use vault_secrets_operator.Common.Merge.Fields.{
  merge_fields, merge_mount, merge_by_strategy, params_merge_strategy, headers_merge_strategy,
  first_non_zero_len, first_text_two, first_text_three, get-merge_maps,
}

-- How a map is merged: by the union of the entries, or as a whole, or not at all.
unfoldable pub merged_entry :
    String → String → Map String String → Map String String → Map String String → Option String
merged_entry strategy k own of_method default =
    if strategy == "union"
    then or_else (get k own) (or_else (get k of_method) (get k default))
    else if strategy == "replace"
    then (if ltb 0 (length own)
        then get k own
        else if ltb 0 (length of_method)
        then get k of_method
        else get k default)
    else get k own

pub get-merge_by_strategy :
    (strategy k : String) (own of_method default m : Map String String)
    → merge_by_strategy strategy own of_method default ≡ ok m
    → get k m ≡ merged_entry strategy k own of_method default
unfolding merge_by_strategy merged_entry first_non_zero_len get
get-merge_by_strategy strategy k own of_method [] m h =
    ground (arith, get-merge_maps k [] of_method own)
get-merge_by_strategy strategy k own of_method (x ∷ rest) m h =
    ground (arith, get-merge_maps k (x ∷ rest) of_method own)

pub merge_fields-ok :
    (o ref : ObjectKey) (r : VaultAuthGlobalRef) (g : VaultAuthGlobalSpec) (d : MethodDefaults)
    (s m : VaultAuthSpec)
    → merge_fields o ref r g d s ≡ ok m
    → (mount : String) × (params : Map String String) × (headers : Map String String) × (merge_mount
          o ref g d s.mount
        ≡ ok mount)
      × (merge_by_strategy (params_merge_strategy r) s.params d.params g.default_params ≡ ok params)
      × (merge_by_strategy (headers_merge_strategy r) s.headers d.headers g.default_headers
          ≡ ok headers)
      × (m ≡ record s {
        mount = mount;
        namespace = text_or s.namespace (text_or d.namespace g.default_vault_namespace);
        params = params;
        headers = headers;
        vault_connection_ref = text_or s.vault_connection_ref g.vault_connection_ref;
      })
unfolding merge_fields
merge_fields-ok o ref r g d s m h = elim (Result-cases (merge_mount o ref g d s.mount)) [
  | inl (x, e) ↦ absurd (ground arith)
  | inr (mount, e) ↦
      elim (Result-cases
        (merge_by_strategy (params_merge_strategy r) s.params d.params g.default_params)) [
          | inl (x, k) ↦ absurd (ground arith)
          | inr (params, k) ↦
              elim (Result-cases (
                merge_by_strategy (headers_merge_strategy r) s.headers d.headers
                  g.default_headers)) [
                    | inl (x, l) ↦ absurd (ground arith)
                    | inr (headers, l) ↦ (
                      mount,
                      params,
                      headers,
                      e,
                      k,
                      l,
                      ground (
                        arith,
                        first_text_three s.namespace d.namespace g.default_vault_namespace,
                        first_text_two s.vault_connection_ref g.vault_connection_ref,
                      ),
                    )
                  ]
        ]
]

pub merge_mount-ok :
    (o ref : ObjectKey) (g : VaultAuthGlobalSpec) (d : MethodDefaults) (own mount : String)
    → merge_mount o ref g d own ≡ ok mount
    → (mount ≡ text_or own (text_or d.mount g.default_mount)) × (mount ≢ "")
unfolding merge_mount
merge_mount-ok o ref g d own mount h =
    ground (arith, first_text_three own d.mount g.default_mount, eq_iff mount "")
