-- ===== src/Common/VaultAuth/Connection.antt =====
-- The connection of a VaultAuth, and the search for a VaultAuth.
use vault_secrets_operator.Base.{◌≡◌, ◌≢◌, refl, String, arith, text_key, eq_iff}
use vault_secrets_operator.Base.Result.{ok}
use vault_secrets_operator.Api.VaultAuth.{VaultAuth}
use vault_secrets_operator.Common.Refs.{parse_resource_ref, name_default, split_slash}
use vault_secrets_operator.Common.VaultAuth.{
  set_vault_connection_ref, get_connection_namespaced_name,
}

module _ (operator_namespace : String) where
  default_ref :
      (ns : String)
      → parse_resource_ref operator_namespace name_default ns
        ≡ ok (record { namespace = ns; name = name_default })
  unfolding parse_resource_ref split_slash
  default_ref ns = refl

  empty_ref :
      (ns : String)
      → parse_resource_ref operator_namespace "" ns
        ≡ ok (record { namespace = operator_namespace; name = name_default })
  unfolding parse_resource_ref
  empty_ref ns = refl

  -- Where the operator's namespace is set, filling in the connection of the operator's default
  -- VaultAuth does not change which VaultConnection any VaultAuth has.
  pub get_connection_namespaced_name-set_vault_connection_ref :
      (a : VaultAuth)
      → operator_namespace ≢ ""
      → get_connection_namespaced_name operator_namespace
          (set_vault_connection_ref operator_namespace a)
        ≡ get_connection_namespaced_name operator_namespace a
  unfolding get_connection_namespaced_name set_vault_connection_ref
  get_connection_namespaced_name-set_vault_connection_ref a h = ground (
    arith,
    eq_iff operator_namespace "",
    eq_iff a.spec.vault_connection_ref "",
    eq_iff a.key.namespace operator_namespace,
    default_ref a.key.namespace,
    empty_ref a.key.namespace,
  )
