-- ===== src/Helpers/Filter.antt =====
-- helpers/template.go: the filters on the fields of a secret.
pub mod Passes
use vault_secrets_operator.Base.{
  String, Bool, true, false, Option, none, some, List, [], ◌∷◌, text_key, if◌then◌else◌,
}
use vault_secrets_operator.Base.Map.{Map, get, put, delete}
use vault_secrets_operator.Base.Result.{Result, ok, err, ◌>>=◌}
use vault_secrets_operator.Common.Errors.{Error}

-- KeyedTemplate; a key that is empty marks a source template.
pub record KeyedTemplate : Type 0 where
  pub key : String
  pub name : String
  pub text : String

pub record SecretTransformationOption : Type 0 where
  pub excludes : List String
  pub includes : List String
  pub annotations : Map String String
  pub labels : Map String String
  pub keyed_templates : List KeyedTemplate
  pub exclude_raw : Bool

-- `match_field` compiles a pattern, or takes it from the cache, and matches it with a field: the
-- error is that of the regexp package for the pattern.
module _ (match_field : String → String → Result Error Bool) where
  -- The loop over the patterns, which stops at the first that matches.
  unfoldable pub first_match : List String → String → Result Error Bool
  first_match [] k = ok false
  first_match (pat ∷ pats) k = elim (match_field pat k) [
    | err e ↦ err e
    | ok matched ↦ if matched then ok true else first_match pats k
  ]

  module _ {V : Type 0} where
    -- The loop over the fields; `f` is the callback, on the state that it changes.
    unfoldable pub filter_fields :
        {S : Type 0} → Map String V → List String → (Bool → String → S → S) → S → Result Error S
    filter_fields [] pats f s = ok s
    filter_fields ((k, _) ∷ d) pats f s = elim (first_match pats k) [
      | err e ↦ err e
      | ok matched ↦ filter_fields d pats f (f matched k s)
    ]

    unfoldable pub filter :
        {S : Type 0} → Map String V → List String → (Bool → String → S → S) → S → Result Error S
    filter d [] f s = ok s
    filter d pats f s = filter_fields d pats f s

    -- m[k] = data[k] where k stands in data.
    unfoldable pub copy_field : Map String V → String → Map String V → Map String V
    copy_field d k m = elim (get k d) [ none ↦ m | some v ↦ put k v m ]

    unfoldable pub exclude : List String → Map String V → Result Error (Map String V)
    exclude [] d = ok d
    exclude pats d = filter d pats (λ matched k m. if matched then m else copy_field d k m) []

    unfoldable pub include : List String → Map String V → Result Error (Map String V)
    include pats m = filter m pats (λ matched k m. if matched then m else delete k m) m

    unfoldable pub filter_data :
        Option SecretTransformationOption → Map String V → Result Error (Map String V)
    filter_data none d = ok d
    filter_data (some opt) d = do m ← exclude opt.excludes d; include opt.includes m
