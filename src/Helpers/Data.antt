-- ===== src/Helpers/Data.antt =====
-- helpers/secrets.go and helpers/template.go: the data of a destination Secret, from the fields of
-- a secret in Vault, the templates and the raw response.
pub mod Fields
pub mod Rendered
mod Examples
use vault_secrets_operator.Base.{
  ℕ, String, Bool, true, false, not, Option, none, some, List, [], ◌∷◌, ◌==◌, ◌&&◌, text_key,
  if◌then◌else◌,
}
use vault_secrets_operator.Base.Map.{Map, get, put, has, copy_into}
use vault_secrets_operator.Base.Result.{Result, ok, err, ◌>>=◌, ◌>>◌, fail_if}
use vault_secrets_operator.Api.Secret.{Bytes}
use vault_secrets_operator.Common.Errors.{Error, contains_raw, no_templates, template_name_empty}
use vault_secrets_operator.Helpers.Filter.{KeyedTemplate, SecretTransformationOption, filter_data}

-- SecretDataKeyRaw
abbrev pub raw_key : String
raw_key = "_raw"

-- A value of Go's type `any`: a string, as its bytes, or a value of another type.
pub data Value (J : Type 0) : Type 0 where
  text : Bytes → Value J
  other : J → Value J

-- The template package: a set of templates, the addition of one that parses, and the execution.
pub record Engine (Input : Type 0) : Type 1 where
  pub Templates : Type 0
  pub new : Templates
  pub parse : String → String → Templates → Result Error Templates
  pub execute_template : String → Input → Templates → Result Error Bytes

module _ {Input : Type 0} (engine : Engine Input) where
  unfoldable pub parse_all : List KeyedTemplate → engine.Templates → Result Error engine.Templates
  parse_all [] t = ok t
  parse_all (k ∷ ks) t = elim (engine.parse k.name k.text t) [
    | err e ↦ err e
    | ok more ↦ parse_all ks more
  ]

  -- loadTemplates; it is called where there are templates.
  unfoldable pub load_templates : List KeyedTemplate → Result Error engine.Templates
  load_templates ks = parse_all ks engine.new

  -- The loop over the templates. Source templates are skipped.
  unfoldable pub render_all :
      engine.Templates
      → Input
      → List KeyedTemplate
      → Map String Bytes
      → Result Error (Map String Bytes)
  render_all t input [] contents = ok contents
  render_all t input (k ∷ ks) contents =
      let skip = render_all t input ks contents in
      if k.key == ""
      then skip
      else if k.name == ""
      then err template_name_empty
      else elim (engine.execute_template k.name input t) [
        | err e ↦ err e
        | ok b ↦ render_all t input ks (put k.key b contents)
      ]

  unfoldable pub render_templates :
      SecretTransformationOption → Input → Result Error (Map String Bytes)
  render_templates opt input = elim opt.keyed_templates [
    | [] ↦ err no_templates
    | k ∷ ks ↦ elim (load_templates (k ∷ ks)) [
      | err e ↦ err e
      | ok t ↦ render_all t input (k ∷ ks) []
    ]
  ]

-- `marshal` is json.Marshal, on a value that is not a string.
module _ {J : Type 0} (marshal : J → Result Error Bytes)
    (match_field : String → String → Result Error Bool) where
  unfoldable pub marshal_json : Value J → Result Error Bytes
  marshal_json (text b) = ok b
  marshal_json (other j) = marshal j

  -- The loop over the filtered fields that are not in data yet.
  unfoldable pub add_fields :
      Map String (Value J) → Map String Bytes → Result Error (Map String Bytes)
  add_fields [] contents = ok contents
  add_fields ((k, v) ∷ d) contents =
      let skip = add_fields d contents in
      if has k contents
      then skip
      else elim (marshal_json v) [ err e ↦ err e | ok b ↦ add_fields d (put k b contents) ]

  unfoldable pub start_data :
      Map String (Value J)
      → Map String Bytes
      → Bytes
      → SecretTransformationOption
      → Result Error (Map String Bytes)
  start_data secret_data extra raw opt =
      if opt.exclude_raw
      then ok []
      else if has raw_key secret_data
      then err contains_raw
      else if has raw_key extra
      then err contains_raw
      else ok (put raw_key raw [])

  unfoldable pub make_k8s_data :
      Map String (Value J)
      → Map String Bytes
      → Bytes
      → SecretTransformationOption
      → Result Error (Map String Bytes)
  make_k8s_data secret_data extra raw opt = do
    start ← start_data secret_data extra raw opt
    filtered ← filter_data match_field (some opt) secret_data
    add_fields filtered (copy_into extra start)
