-- ===== src/Common/Merge/Fields.antt =====
-- common/common.go, MergeInVaultAuthGlobal: the fields of the spec that every method has, and the
-- helpers that combine values.

pub mod Merged
use text.Mathlib.TextLemmas.{cons-ne-nil}
use vault_secrets_operator.Base.{
  ℕ, suc, ◌≡◌, refl, String, none, some, List, [], ◌∷◌, arith, ◌==◌, text_key, or_else, ltb,
  if◌then◌else◌, length, not, eq_iff,
}
use vault_secrets_operator.Base.Map.{Map, get, copy_into, get-copy_into}
use vault_secrets_operator.Base.Result.{Result, ok, err, ◌>>=◌}
use vault_secrets_operator.Api.Names.{ObjectKey}
use vault_secrets_operator.Api.VaultAuth.{VaultAuthGlobalRef, VaultAuthSpec, VaultAuthGlobalSpec}
use vault_secrets_operator.Common.Errors.{Error, invalid_merge, mount_not_set, unsupported_strategy}
use vault_secrets_operator.Common.Merge.Config.{MethodDefaults}

unfoldable pub merge_onto : List (Map String String) → Map String String → Map String String
merge_onto [] ret = ret
merge_onto (m ∷ ms) ret = merge_onto ms (copy_into m ret)

unfoldable pub merge_maps : List (Map String String) → Map String String
unfolding merge_onto
merge_maps ms = merge_onto ms []

unfoldable pub str_len_func : String → ℕ
str_len_func String.[] = 0
str_len_func (String.◌∷◌ _ s) = suc (str_len_func s)

-- `zero` is the value of a variable that was not set.
unfoldable pub first_non_zero_len {ℓ} : {V : Type ℓ} → V → (V → ℕ) → List V → V
first_non_zero_len zero len [] = zero
first_non_zero_len zero len (v ∷ m) = if ltb 0 (len v) then v else first_non_zero_len zero len m

abbrev pub first_text : List String → String
first_text = first_non_zero_len "" str_len_func

abbrev pub first_map : List (Map String String) → Map String String
first_map = first_non_zero_len [] length

-- The merge strategies of params and of headers, "none" where nothing is set.
abbrev strategy_or_none : String → String
strategy_or_none s = if s == "" then "none" else s

unfoldable pub params_merge_strategy : VaultAuthGlobalRef → String
params_merge_strategy r = elim r.merge_strategy [
  | none ↦ "none"
  | some s ↦ strategy_or_none s.params
]

unfoldable pub headers_merge_strategy : VaultAuthGlobalRef → String
headers_merge_strategy r = elim r.merge_strategy [
  | none ↦ "none"
  | some s ↦ strategy_or_none s.headers
]

-- `switch paramsMergeStrategy`, and the same for the headers.
unfoldable pub merge_by_strategy :
    String
    → Map String String
    → Map String String
    → Map String String
    → Result Error (Map String String)
merge_by_strategy strategy own of_method default =
    if strategy == "union"
    then ok (merge_maps (default ∷ of_method ∷ own ∷ []))
    else if strategy == "replace"
    then ok (first_map (own ∷ of_method ∷ default ∷ []))
    else if strategy == "none"
    then ok own
    else err (invalid_merge (unsupported_strategy strategy))

unfoldable pub merge_mount :
    ObjectKey → ObjectKey → VaultAuthGlobalSpec → MethodDefaults → String → Result Error String
merge_mount o ref g d own =
    let mount = first_text (own ∷ d.mount ∷ g.default_mount ∷ []) in
    if mount == "" then err (invalid_merge (mount_not_set o ref)) else ok mount

unfoldable pub merge_fields :
    ObjectKey
    → ObjectKey
    → VaultAuthGlobalRef
    → VaultAuthGlobalSpec
    → MethodDefaults
    → VaultAuthSpec
    → Result Error VaultAuthSpec
merge_fields o ref r g d spec = do
  mount ← merge_mount o ref g d spec.mount
  params ← merge_by_strategy (params_merge_strategy r) spec.params d.params g.default_params
  headers ← merge_by_strategy (headers_merge_strategy r) spec.headers d.headers g.default_headers
  ok (record spec {
    mount = mount;
    namespace = first_text (spec.namespace ∷ d.namespace ∷ g.default_vault_namespace ∷ []);
    params = params;
    headers = headers;
    vault_connection_ref = first_text (spec.vault_connection_ref ∷ g.vault_connection_ref ∷ []);
  })

str_len-zero : (s : String) → ltb 0 (str_len_func s) ≡ not (s == "")
unfolding str_len_func
str_len-zero String.[] = refl
str_len-zero (String.◌∷◌ c s) = ground (arith, eq_iff (String.◌∷◌ c s) "", cons-ne-nil c s)

pub first_text_two : (a b : String) → first_text (a ∷ b ∷ []) ≡ (if a == "" then b else a)
unfolding first_non_zero_len
first_text_two a b = ground (arith, str_len-zero a, str_len-zero b, eq_iff b "")

pub first_text_three :
    (a b c : String)
    → first_text (a ∷ b ∷ c ∷ []) ≡ (if a == "" then (if b == "" then c else b) else a)
unfolding first_non_zero_len
first_text_three a b c = ground (arith, str_len-zero a, str_len-zero b, str_len-zero c, eq_iff c "")

pub get-merge_maps :
    (k : String) (a b c : Map String String)
    → get k (merge_maps (a ∷ b ∷ c ∷ [])) ≡ or_else (get k c) (or_else (get k b) (get k a))
unfolding merge_maps get
get-merge_maps k a b c = ground (
  arith,
  get-copy_into k c (copy_into b (copy_into a [])),
  get-copy_into k b (copy_into a []),
  get-copy_into k a [],
)
