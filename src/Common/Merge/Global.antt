-- ===== src/Common/Merge/Global.antt =====
-- common/common.go, MergeInVaultAuthGlobal: which VaultAuthGlobal is merged, and whether the
-- VaultAuth may use it.
pub mod Read
use vault_secrets_operator.Base.{
  ◌≡◌, String, Bool, true, false, not, Option, none, some, List, [], ◌∷◌, ◌==◌, text_key,
  if◌then◌else◌, contains,
}
use vault_secrets_operator.Base.Result.{Result, ok, err, ◌>>=◌, ◌>>◌, fail_if}
use vault_secrets_operator.Api.Names.{ObjectKey}
use vault_secrets_operator.Api.Secret.{ApiError, not_found, is_not_found}
use vault_secrets_operator.Api.VaultAuth.{VaultAuth, VaultAuthGlobal, VaultAuthGlobalRef}
use vault_secrets_operator.Common.Errors.{
  Error, api, namespace_not_allowed, no_global_ref, invalid_global_ref, invalid_object_ref,
  default_vault_auth_not_allowed, default_vault_auth_not_found, failed_getting,
  is_invalid_object_key,
}
use vault_secrets_operator.Common.Refs.{name_default, validate_object_key, is_allowed_namespace}

-- The reference, which an error leaves as far as it was filled in, and the error.
unfoldable pub global_ref_of : VaultAuth → VaultAuthGlobalRef → ObjectKey × Option Error
global_ref_of o r =
    let ref : ObjectKey = record {
      namespace =
          if not (r.namespace == "")
          then r.namespace
          else if not (r.name == "")
          then o.key.namespace
          else "";
      name = r.name;
    } in
    elim (validate_object_key ref) [
      | none ↦ (ref, none)
      | some e ↦ (ref, some (invalid_global_ref o.key e))
    ]

unfoldable pub vault_auth_global_resource_ref : VaultAuth → ObjectKey × Option Error
unfolding global_ref_of
vault_auth_global_resource_ref o = elim o.spec.vault_auth_global_ref [
  | none ↦ (record { namespace = ""; name = "" }, some (no_global_ref o.key))
  | some r ↦ global_ref_of o r
]

-- `globalOpts` is nil or the value of AllowDefaultGlobals.
unfoldable pub with_default_vault_auth_global :
    Option Bool → VaultAuth → VaultAuthGlobalRef → Result Error Bool
with_default_vault_auth_global none o r = ok false
with_default_vault_auth_global (some true) o r =
    ok (elim r.allow_default [ none ↦ false | some b ↦ b ])
with_default_vault_auth_global (some false) o r = elim r.allow_default [
  | none ↦ ok false
  | some b ↦ if b then err (default_vault_auth_not_allowed o.key) else ok false
]

-- The client's Get of a VaultAuthGlobal, on the cluster as it stands during the merge.
module _ (operator_namespace : String) (get : ObjectKey → Result ApiError VaultAuthGlobal) where
  unfoldable pub find_from : List String → List String → List String → Result Error VaultAuthGlobal
  find_from all seen [] = err (default_vault_auth_not_found all)
  find_from all seen (ns ∷ rest) =
      let skip = find_from all seen rest in
      let next = find_from all (ns ∷ seen) rest in
      if ns == ""
      then skip
      else if contains ns seen
      then skip
      else elim (get (record { namespace = ns; name = name_default })) [
        | ok g ↦ ok g
        | err e ↦ if is_not_found e then next else err (api e)
      ]

  unfoldable pub find_vault_auth_global_default : List String → Result Error VaultAuthGlobal
  unfolding find_from
  find_vault_auth_global_default namespaces = find_from namespaces [] namespaces

  abbrev pub search_namespaces : VaultAuth → ObjectKey → List String
  search_namespaces o ref =
      if ref.namespace == "" then o.key.namespace ∷ operator_namespace ∷ [] else ref.namespace ∷ []

  -- The object that is referred to, or the default one when the reference names none.
  unfoldable pub get_global :
      Bool → VaultAuth → ObjectKey × Option Error → Result Error VaultAuthGlobal
  get_global with_default o (ref, some e) =
      if not (is_invalid_object_key e)
      then err e
      else if not with_default
      then err e
      else if ref.name == ""
      then find_vault_auth_global_default (search_namespaces o ref)
      else err (invalid_object_ref e)
  get_global with_default o (ref, none) = elim (get ref) [
    | ok g ↦ ok g
    | err e ↦ err (failed_getting ref e)
  ]

  unfoldable pub allowed_global :
      Option Bool → VaultAuth → VaultAuthGlobalRef → Result Error (ObjectKey × VaultAuthGlobal)
  unfolding get_global
  allowed_global opts o r = do
    with_default ← with_default_vault_auth_global opts o r
    let found = vault_auth_global_resource_ref o
    g ← get_global with_default o found
    fail_if
        (not
          (is_allowed_namespace operator_namespace g.key o.key.namespace g.spec.allowed_namespaces))
        (namespace_not_allowed o.key.namespace found.0)
    ok (found.0, g)
