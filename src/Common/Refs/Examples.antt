-- ===== src/Common/Refs/Examples.antt =====
-- References and allowed namespaces at concrete inputs.
use vault_secrets_operator.Base.{◌≡◌, refl, Bool, [], ◌∷◌, contains, text_key}
use vault_secrets_operator.Base.Result.{ok, err}
use vault_secrets_operator.Api.Names.{ObjectKey}
use vault_secrets_operator.Common.Errors.{invalid_name}
use vault_secrets_operator.Common.Refs.{split_slash, parse_resource_ref, is_allowed_namespace}
use vault_secrets_operator.Common.Refs.Parse.{reference_text, has_slash, parse-reference_text}

abbrev auth : ObjectKey
auth = record { namespace = "team"; name = "auth" }

plain_name :
    parse_resource_ref "vso" "auth" "apps" ≡ ok (record { namespace = "apps"; name = "auth" })
unfolding parse_resource_ref split_slash
plain_name = refl

three_parts : parse_resource_ref "vso" "a/b/c" "apps" ≡ err (invalid_name "a/b/c")
unfolding parse_resource_ref split_slash
three_parts = refl

wildcard_among_others : is_allowed_namespace "vso" auth "apps" ("*" ∷ "b" ∷ []) ≡ Bool.false
unfolding is_allowed_namespace contains
wildcard_among_others = refl

parse-reference_text_example : parse_resource_ref "vso" (reference_text auth) "apps" ≡ ok auth
unfolding has_slash
parse-reference_text_example = parse-reference_text "vso" "apps" auth refl refl
