-- ===== src/Common/Refs/Parse.antt =====
-- Reading back what a reference says.
use Prim.Native.String
use Prim.Native.Char.{Char, code}
use text.Mathlib.TextLemmas.{nil-append, cons-append, append-ne-nil_of_right_ne-nil, cons-ne-nil}
use mathlib.Core.Path.{subst, sym}
use vault_secrets_operator.Base.{
  ap, ℕ, suc, ◌≤◌, ◌≡◌, ◌↔◌, refl, eq_iff, String, Bool, false, ◌||◌, List, [], ◌∷◌, arith, ◌==◌,
  text_key, nat_eq, if◌then◌else◌, length, Bool-cases, inl, inr,
}
use vault_secrets_operator.Base.Result.{ok, err}
use vault_secrets_operator.Api.Names.{ObjectKey}
use vault_secrets_operator.Common.Errors.{invalid_name}
use vault_secrets_operator.Common.Refs.{split_slash, parse_resource_ref}

slash : Char
slash = "/"

-- How a key is written in a reference: the NamespacedName's String.
pub reference_text : ObjectKey → String
unfolding slash
reference_text key = String.◌++◌ key.namespace (String.◌∷◌ slash key.name)

unfoldable pub has_slash : String → Bool
has_slash String.[] = false
has_slash (String.◌∷◌ c s) = nat_eq (code c) b'/' || has_slash s

split-no_slash : (s : String) → has_slash s ≡ false → split_slash s ≡ s ∷ []
unfolding split_slash has_slash
split-no_slash String.[] h = refl
split-no_slash (String.◌∷◌ c s) h = ground (arith, split-no_slash s)

split_slash-cons :
    (c : Char) (s a : String) (l : List String)
    → nat_eq (code c) b'/' ≡ false
    → split_slash s ≡ a ∷ l
    → split_slash (String.◌∷◌ c s) ≡ String.◌∷◌ c a ∷ l
unfolding split_slash
split_slash-cons c s a l h e = ground arith

split-slash :
    (a b : String)
    → has_slash a ≡ false
    → has_slash b ≡ false
    → split_slash (String.◌++◌ a (String.◌∷◌ slash b)) ≡ a ∷ b ∷ []
unfolding has_slash
split-slash String.[] b h k =
    rw (nil-append (String.◌∷◌ slash b))
      (unfold split_slash slash in ap (λ l. "" ∷ l) (split-no_slash b k))
split-slash (String.◌∷◌ c s) b h k =
    rw (cons-append c s (String.◌∷◌ slash b))
      (split_slash-cons c _ s (b ∷ []) (ground arith) (split-slash s b (ground arith) k))

reference_text-ne-nil : (key : ObjectKey) → (reference_text key == "") ≡ false
unfolding reference_text
reference_text-ne-nil key = ground (
  arith,
  eq_iff (String.◌++◌ key.namespace (String.◌∷◌ slash key.name)) "",
  append-ne-nil_of_right_ne-nil key.namespace (cons-ne-nil slash key.name),
)

-- A key whose namespace and name hold no slash is read back from its text, whatever the default
-- namespace is.
pub parse-reference_text :
    (operator_namespace default : String) (key : ObjectKey)
    → has_slash key.namespace ≡ false
    → has_slash key.name ≡ false
    → parse_resource_ref operator_namespace (reference_text key) default ≡ ok key
unfolding parse_resource_ref
parse-reference_text operator_namespace default key h k =
    rw (reference_text-ne-nil key)
      (unfold reference_text in rw (split-slash key.namespace key.name h k))

pub slashes : String → ℕ
slashes String.[] = 0
slashes (String.◌∷◌ c s) = if nat_eq (code c) b'/' then suc (slashes s) else slashes s

length-split_slash : (s : String) → length (split_slash s) ≡ suc (slashes s)
unfolding split_slash slashes
length-split_slash String.[] = refl
length-split_slash (String.◌∷◌ c s) = ground (arith, length-split_slash s)

parse_names_cases :
    (operator_namespace ref default : String) (names : List String)
    → length names ≡ suc (slashes ref)
    → names ≡ split_slash ref
    → (ref == "") ≡ false
    → (parse_resource_ref operator_namespace ref default ≡ err (invalid_name ref))
      ↔ (2 ≤ slashes ref)
unfolding parse_resource_ref
parse_names_cases o ref default [] h e n = ground arith
parse_names_cases o ref default (a ∷ []) h e n = ground arith
parse_names_cases o ref default (a ∷ b ∷ []) h e n = ground arith
parse_names_cases o ref default (a ∷ b ∷ c ∷ l) h e n = ground arith

parse_empty :
    (o default : String)
    → (parse_resource_ref o "" default ≡ err (invalid_name "")) ↔ (2 ≤ slashes "")
unfolding parse_resource_ref slashes
parse_empty o default = ground arith

-- A reference is refused exactly if it holds two slashes or more.
pub parse_resource_ref_err_iff :
    (operator_namespace ref default : String)
    → (parse_resource_ref operator_namespace ref default ≡ err (invalid_name ref))
      ↔ (2 ≤ slashes ref)
parse_resource_ref_err_iff o ref default = elim (Bool-cases (ref == "")) [
  | inl empty ↦
      subst (λ r. (parse_resource_ref o r default ≡ err (invalid_name r)) ↔ (2 ≤ slashes r))
        (sym ((eq_iff ref "").0 empty)) (parse_empty o default)
  | inr given ↦
      parse_names_cases o ref default (split_slash ref) (length-split_slash ref) refl given
]
