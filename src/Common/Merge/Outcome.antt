-- ===== src/Common/Merge/Outcome.antt =====
-- The spec that a merge returns, field by field, and when it returns one.
use vault_secrets_operator.Base.{
  ◌≡◌, ◌≢◌, inl, inr, refl, ◌∙◌, ap, String, true, some, arith, text_key, Option-cases,
}
use vault_secrets_operator.Base.Map.{Map, get}
use vault_secrets_operator.Base.Result.{ok, Result-cases}
use vault_secrets_operator.Api.Names.{ObjectKey}
use vault_secrets_operator.Api.AuthConfig.{text_or}
use vault_secrets_operator.Api.AuthConfig.Merge.{
  kubernetes_config, jwt_config, app_role_config, aws_config, gcp_config,
}
use vault_secrets_operator.Api.VaultAuth.{VaultAuthSpec, VaultAuthGlobalRef, VaultAuthGlobalSpec}
use vault_secrets_operator.Common.Merge.{merge_spec}
use vault_secrets_operator.Common.Merge.Config.{
  ProviderMethod, kubernetes, jwt, app_role, aws, gcp, provider_method, MethodDefaults,
  merge_method, merge_provider,
}
use vault_secrets_operator.Common.Merge.Config.Combined.{
  combined_spec, is_accepted, method_defaults, is_accepted_spec, merge_provider-combined,
}
use vault_secrets_operator.Common.Merge.Config.Filled.{
  IsConfigured, SameConfigs, combined_spec-IsConfigured,
}
use vault_secrets_operator.Common.Merge.Fields.Merged.{
  merged_entry, get-merge_by_strategy, merge_fields-ok, merge_mount-ok,
}
use vault_secrets_operator.Common.Merge.Fields.{
  merge_mount, merge_by_strategy, params_merge_strategy, headers_merge_strategy,
}

-- The fields of a spec that every method has, before and after the merge.
pub record IsMerged (r : VaultAuthGlobalRef) (g : VaultAuthGlobalSpec) (s : VaultAuthSpec)
    (p : ProviderMethod) (m : VaultAuthSpec) : Type 0 where
  pub method : m.method ≡ text_or s.method g.default_auth_method
  pub mount : m.mount ≡ text_or s.mount (text_or (method_defaults g p).mount g.default_mount)
  pub mount_set : m.mount ≢ ""
  pub namespace :
      m.namespace
      ≡ text_or s.namespace (text_or (method_defaults g p).namespace g.default_vault_namespace)
  pub connection : m.vault_connection_ref ≡ text_or s.vault_connection_ref g.vault_connection_ref
  pub params :
      (k : String)
      → get k m.params
        ≡ merged_entry
            (params_merge_strategy r)
            k
            s.params
            (method_defaults g p).params
            g.default_params
  pub headers :
      (k : String)
      → get k m.headers
        ≡ merged_entry
            (headers_merge_strategy r)
            k
            s.headers
            (method_defaults g p).headers
            g.default_headers
  pub rest :
      (m.allowed_namespaces ≡ s.allowed_namespaces)
      × (m.storage_encryption ≡ s.storage_encryption)
      × (m.vault_auth_global_ref ≡ s.vault_auth_global_ref)

pub combined_spec-fields :
    (g : VaultAuthGlobalSpec) (s : VaultAuthSpec) (p : ProviderMethod) (method : String)
    → let c = combined_spec g (record s { method = method }) p in
      (c ≡ record (combined_spec g s p) { method = method })
      × (c.mount ≡ s.mount)
      × (c.namespace ≡ s.namespace)
      × (c.params ≡ s.params)
      × (c.headers ≡ s.headers)
      × (c.vault_connection_ref ≡ s.vault_connection_ref)
      × (c.allowed_namespaces ≡ s.allowed_namespaces)
      × (c.storage_encryption ≡ s.storage_encryption)
      × (c.vault_auth_global_ref ≡ s.vault_auth_global_ref)
unfolding combined_spec
combined_spec-fields g s kubernetes method = (refl, refl, refl, refl, refl, refl, refl, refl, refl)
combined_spec-fields g s jwt method = (refl, refl, refl, refl, refl, refl, refl, refl, refl)
combined_spec-fields g s app_role method = (refl, refl, refl, refl, refl, refl, refl, refl, refl)
combined_spec-fields g s aws method = (refl, refl, refl, refl, refl, refl, refl, refl, refl)
combined_spec-fields g s gcp method = (refl, refl, refl, refl, refl, refl, refl, refl, refl)

is_accepted_spec-SameConfigs :
    (g : VaultAuthGlobalSpec) (a b : VaultAuthSpec) (p : ProviderMethod)
    → SameConfigs a b
    → is_accepted_spec g a p ≡ is_accepted_spec g b p
unfolding is_accepted_spec
is_accepted_spec-SameConfigs g a b kubernetes e = ap (λ c. is_accepted c g.kubernetes) e.kubernetes
is_accepted_spec-SameConfigs g a b jwt e = ap (λ c. is_accepted c g.jwt) e.jwt
is_accepted_spec-SameConfigs g a b app_role e = ap (λ c. is_accepted c g.app_role) e.app_role
is_accepted_spec-SameConfigs g a b aws e = ap (λ c. is_accepted c g.aws) e.aws
is_accepted_spec-SameConfigs g a b gcp e = ap (λ c. is_accepted c g.gcp) e.gcp

merge-IsConfigured :
    (o ref : ObjectKey) (r : VaultAuthGlobalRef) (g : VaultAuthGlobalSpec) (s c m : VaultAuthSpec)
    (method : String) (p : ProviderMethod) (d : MethodDefaults)
    → merge_method o ref g s ≡ ok method
    → provider_method method ≡ some p
    → (c ≡ combined_spec g (record s { method = method }) p)
      × (d ≡ method_defaults g p)
      × (is_accepted_spec g c p ≡ true)
    → ((mount : String) × (params : Map String String) × (headers : Map String String)
        × (merge_mount o ref g d c.mount ≡ ok mount)
        × (merge_by_strategy (params_merge_strategy r) c.params d.params g.default_params
            ≡ ok params)
        × (merge_by_strategy (headers_merge_strategy r) c.headers d.headers g.default_headers
            ≡ ok headers)
        × (m ≡ record c {
          mount = mount;
          namespace = text_or c.namespace (text_or d.namespace g.default_vault_namespace);
          params = params;
          headers = headers;
          vault_connection_ref = text_or c.vault_connection_ref g.vault_connection_ref;
        }))
    → (p : ProviderMethod) × (provider_method m.method ≡ some p)
      × IsMerged r g s p m
      × IsConfigured g s m p
      × (is_accepted_spec g m p ≡ true)
unfolding merge_method
merge-IsConfigured o ref r g s c m method p d e n (ce, de, acc)
      (mount, params, headers, em, ep, eh, me) =
    let (ce2, f1, f2, f3, f4, f5, f6, f7, f8) = combined_spec-fields g s p method in
    let (m1, m2) = merge_mount-ok o ref g d c.mount mount em in
    let configs : SameConfigs m c = record {
      kubernetes = ground arith;
      jwt = ground arith;
      app_role = ground arith;
      aws = ground arith;
      gcp = ground arith;
    } in
    let merged : SameConfigs m (combined_spec g s p) = record {
      kubernetes = ground arith;
      jwt = ground arith;
      app_role = ground arith;
      aws = ground arith;
      gcp = ground arith;
    } in
    (
      p,
      ground arith,
      record {
        method = ground arith;
        mount = ground arith;
        mount_set = ground arith;
        namespace = ground arith;
        connection = ground arith;
        params = λ k. ground (
          arith,
          get-merge_by_strategy (params_merge_strategy r) k c.params d.params g.default_params
              params,
        );
        headers = λ k. ground (
          arith,
          get-merge_by_strategy (headers_merge_strategy r) k c.headers d.headers g.default_headers
              headers,
        );
        rest = (ground arith, ground arith, ground arith);
      },
      combined_spec-IsConfigured g s m p merged,
      is_accepted_spec-SameConfigs g m c p configs ∙ acc,
    )

-- A merge that returns a spec has settled on one of the five methods: the VaultAuth's own or, where
-- that is empty, the VaultAuthGlobal's default. The method's configuration is the one that
-- one side has or, where both have one, has in each field the VaultAuth's value if that is set and
-- else the VaultAuthGlobal's; Validate accepts it where the VaultAuthGlobal has one, and
-- the other methods' configurations stay. Mount and Vault namespace are the first non-empty of the
-- VaultAuth's, the method's and the VaultAuthGlobal's, and the connection is that of the VaultAuth or
-- else of the VaultAuthGlobal; the mount is not empty. Params and headers follow their strategies,
-- entry by entry, and the rest stays.
pub merge_spec-IsMerged :
    (o ref : ObjectKey) (r : VaultAuthGlobalRef) (g : VaultAuthGlobalSpec) (s m : VaultAuthSpec)
    → merge_spec o ref r g s ≡ ok m
    → (p : ProviderMethod) × (provider_method m.method ≡ some p)
      × IsMerged r g s p m
      × IsConfigured g s m p
      × (is_accepted_spec g m p ≡ true)
unfolding merge_spec
merge_spec-IsMerged o ref r g s m h = elim (Result-cases (merge_method o ref g s)) [
  | inl (x, e) ↦ absurd (ground arith)
  | inr (method, e) ↦ elim (Option-cases (provider_method method)) [
    | inl n ↦ absurd (unfold merge_provider in ground arith)
    | inr (p, n) ↦
        elim (Result-cases (merge_provider ref g (record s { method = method }) (some p))) [
          | inl (x, k) ↦ absurd (ground arith)
          | inr ((c, d), k) ↦
              merge-IsConfigured o ref r g s c m method p d e n
                (merge_provider-combined ref g (record s { method = method }) c p d k)
                (merge_fields-ok o ref r g d c m (ground arith))
        ]
  ]
]
