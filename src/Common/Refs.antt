-- ===== src/Common/Refs.antt =====
-- common/common.go: references to resources, and the namespaces that may use them.
pub mod Parse
mod Examples
use Prim.Native.String
use Prim.Native.Char.{Char, code}
use text.Mathlib.TextLemmas.{nil-append, cons-append}
use vault_secrets_operator.Base.{
  ap, ℕ, ◌≡◌, ◌≢◌, ◌↔◌, ◌⊎◌, inl, inr, eq_iff, refl, String, Bool, true, false, ◌&&◌, ◌||◌, Option,
  none, some, List, [], ◌∷◌, arith, ◌==◌, text_key, nat_eq, if◌then◌else◌, contains,
}
use vault_secrets_operator.Base.Result.{Result, ok, err}
use vault_secrets_operator.Api.Names.{ObjectKey}
use vault_secrets_operator.Common.Errors.{Error, invalid_name, empty_name, empty_namespace}

-- consts.NameDefault
abbrev pub name_default : String
name_default = "default"

abbrev add_char : Char → List String → List String
add_char c [] = String.◌∷◌ c String.[] ∷ []
add_char c (s ∷ ss) = String.◌∷◌ c s ∷ ss

-- strings.Split(s, "/")
unfoldable pub split_slash : String → List String
split_slash String.[] = "" ∷ []
split_slash (String.◌∷◌ c s) =
    let rest = split_slash s in if nat_eq (code c) b'/' then "" ∷ rest else add_char c rest

-- The `allowed` argument: empty, the wildcard alone, or the names.
is_listed : String → List String → Bool
is_listed target [] = false
is_listed target (a ∷ []) = a == "*" || a == target
is_listed target allowed = contains target allowed

-- The package's variable OperatorNamespace is set at start.
module _ (operator_namespace : String) where
  parse_names : String → String → List String → Result Error ObjectKey
  parse_names ref default (name ∷ []) = ok (record { namespace = default; name = name })
  parse_names ref default (ns ∷ name ∷ []) = ok (record { namespace = ns; name = name })
  parse_names ref default _ = err (invalid_name ref)

  unfoldable pub parse_resource_ref : String → String → Result Error ObjectKey
  unfolding parse_names
  parse_resource_ref ref default =
      if ref == ""
      then ok (record { namespace = operator_namespace; name = name_default })
      else parse_names ref default (split_slash ref)

  unfoldable pub is_allowed_namespace : ObjectKey → String → List String → Bool
  unfolding is_listed
  is_allowed_namespace obj target allowed =
      if target == obj.namespace
      then true
      else if obj.name == name_default && obj.namespace == operator_namespace
      then true
      else is_listed target allowed

  -- A namespace may use a resource exactly if it is the resource's own, or the resource is the
  -- operator's default one, or the list of allowed namespaces is the wildcard alone, or it names
  -- the namespace.
  pub is_allowed_namespace_iff :
      (obj : ObjectKey) (target : String) (allowed : List String)
      → (is_allowed_namespace obj target allowed ≡ true) ↔ (
          (target ≡ obj.namespace)
          ⊎ ((obj ≡ record { namespace = operator_namespace; name = name_default })
              ⊎ ((allowed ≡ "*" ∷ []) ⊎ (contains target allowed ≡ true))))
  unfolding is_allowed_namespace contains
  is_allowed_namespace_iff obj target [] = ground (
    arith,
    eq_iff target obj.namespace,
    eq_iff obj.name name_default,
    eq_iff obj.namespace operator_namespace,
  )
  is_allowed_namespace_iff obj target (a ∷ []) = ground (
    arith,
    eq_iff target obj.namespace,
    eq_iff obj.name name_default,
    eq_iff obj.namespace operator_namespace,
    eq_iff a "*",
  )
  is_allowed_namespace_iff obj target (a ∷ b ∷ rest) = ground (
    arith,
    eq_iff target obj.namespace,
    eq_iff obj.name name_default,
    eq_iff obj.namespace operator_namespace,
  )

unfoldable pub validate_object_key : ObjectKey → Option Error
validate_object_key key =
    if key.name == ""
    then some empty_name
    else if key.namespace == ""
    then some empty_namespace
    else none
