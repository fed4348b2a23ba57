-- ===== src/Vault/CacheKey/Clone.antt =====
-- vault/cache_key.go: the keys of clones, which a client for another Vault namespace has.
mod Examples
use Prim.Native.String
use Prim.Native.Char.{Char, code}
use vault_secrets_operator.Base.{
  ℕ, zero, suc, ◌-◌, String, Bool, true, false, not, ◌&&◌, ◌||◌, Option, none, some, List, [], ◌∷◌,
  ◌==◌, text_key, leb, nat_eq, if◌then◌else◌, is_some,
}
use vault_secrets_operator.Base.Result.{Result, ok, err}

pub data CloneError : Type 0 where
  invalid_cache_key : String → CloneError
  empty_namespace parent_is_clone : CloneError

-- credentials.ProviderMethodsSupported
abbrev pub provider_methods_supported : List String
provider_methods_supported =
    "kubernetes" ∷ "jwt" ∷ "appRole" ∷ "aws" ∷ "gcp" ∷ "servicePrincipal" ∷ []

-- The rest of a text after a prefix.
unfoldable pub strip_prefix : String → String → Option String
strip_prefix String.[] s = some s
strip_prefix (String.◌∷◌ c p) String.[] = none
strip_prefix (String.◌∷◌ c p) (String.◌∷◌ d s) =
    let rest = strip_prefix p s in if nat_eq (code c) (code d) then rest else none

-- strings.HasPrefix
abbrev pub has_prefix : String → String → Bool
has_prefix s p = is_some (strip_prefix p s)

-- [[:xdigit:]]
unfoldable pub is_hex_digit : ℕ → Bool
is_hex_digit c = leb 48 c && leb c 57 || (leb 65 c && leb c 70 || leb 97 c && leb c 102)

-- [[:xdigit:]]{n}: the digits and the rest.
unfoldable pub take_hex : ℕ → String → Option (String × String)
take_hex zero s = some ("", s)
take_hex (suc n) String.[] = none
take_hex (suc n) (String.◌∷◌ c s) =
    let rest = take_hex n s in
    if is_hex_digit (code c)
    then elim rest [ none ↦ none | some (digits, left) ↦ some (String.◌∷◌ c digits, left) ]
    else none

-- cacheKeyRe for one method, at the start of a text: the match and the rest.
unfoldable pub match_method : String → String → Option (String × String)
match_method method s = elim (strip_prefix (String.◌++◌ method "-") s) [
  | none ↦ none
  | some t ↦ elim (take_hex 22 t) [
    | none ↦ none
    | some (digits, left) ↦ some (String.◌++◌ (String.◌++◌ method "-") digits, left)
  ]
]

-- cacheKeyLeftAnchoredRe: the first of the methods with which the text matches.
unfoldable pub match_key : List String → String → Option (String × String)
match_key [] s = none
match_key (m ∷ ms) s = elim (match_method m s) [ some found ↦ some found | none ↦ match_key ms s ]

-- `.+$`: no newline.
unfoldable pub is_line : String → Bool
is_line String.[] = true
is_line (String.◌∷◌ c s) = not (nat_eq (code c) 10) && is_line s

-- `-.+$`
unfoldable pub is_suffix : String → Bool
is_suffix s = elim (strip_prefix "-" s) [ none ↦ false | some t ↦ not (t == "") && is_line t ]

-- IsClone. The methods have no common prefixes, so that the first match decides.
unfoldable pub is_clone : String → Bool
is_clone k = elim (match_key provider_methods_supported k) [
  | none ↦ false
  | some (_, left) ↦ is_suffix left
]

unfoldable pub parent : String → Result CloneError String
parent k = elim (match_key provider_methods_supported k) [
  | none ↦ err (invalid_cache_key k)
  | some (key, _) ↦ ok key
]

unfoldable pub same_parent : String → String → Result CloneError Bool
same_parent k other = elim (parent k) [
  | err e ↦ err e
  | ok p1 ↦ elim (parent other) [ err e ↦ err e | ok p2 ↦ ok (p1 == p2) ]
]

unfoldable pub client_cache_key_clone : String → String → Result CloneError String
client_cache_key_clone key namespace =
    if namespace == ""
    then err empty_namespace
    else if is_clone key
    then err parent_is_clone
    else ok (String.◌++◌ key (String.◌++◌ "-" namespace))
