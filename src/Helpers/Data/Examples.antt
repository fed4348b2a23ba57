-- ===== src/Helpers/Data/Examples.antt =====
-- Filters and data at concrete inputs, with patterns that match themselves alone.
use vault_secrets_operator.Base.{
  ◌≡◌, refl, String, Bool, true, false, not, ◌&&◌, ◌||◌, none, some, [], ◌∷◌, ◌==◌, text_key,
  if◌then◌else◌, or_else, is_some,
}
use vault_secrets_operator.Base.Map.{Map, get, put, delete, has, copy_into}
use vault_secrets_operator.Base.Result.{Result, ok, err}
use vault_secrets_operator.Api.Secret.{Bytes}
use vault_secrets_operator.Common.Errors.{Error, library}
use vault_secrets_operator.Helpers.Filter.{
  SecretTransformationOption, first_match, filter_fields, filter, copy_field, exclude, include,
  filter_data,
}
use vault_secrets_operator.Helpers.Filter.Passes.{passes, get-filter_data}
use vault_secrets_operator.Helpers.Data.{
  Value, text, other, raw_key, marshal_json, add_fields, start_data, make_k8s_data, Engine,
  render_templates, load_templates, parse_all, render_all,
}
use vault_secrets_operator.Helpers.Data.Fields.{encoded, get-make_k8s_data}
use vault_secrets_operator.Helpers.Data.Rendered.{
  Parses, all_render, last_output, render_templates-last_output,
}

abbrev equal : String → String → Result Error Bool
equal pat k = ok (pat == k)

abbrev number : Bytes → Result Error Bytes
number b = ok b

abbrev option : SecretTransformationOption
option = record {
  excludes = "id" ∷ [];
  includes = "user" ∷ "password" ∷ [];
  annotations = [];
  labels = [];
  keyed_templates = [];
  exclude_raw = false;
}

abbrev fields : Map String (Value Bytes)
fields =
    ("id", other (7 ∷ []))
    ∷ ("user", text (1 ∷ []))
    ∷ ("password", text (2 ∷ []))
    ∷ ("port", other (3 ∷ []))
    ∷ []

abbrev rendered : Map String Bytes
rendered = ("password", 9 ∷ []) ∷ []

abbrev filtered : Map String (Value Bytes)
filtered = ("password", text (2 ∷ [])) ∷ ("user", text (1 ∷ [])) ∷ []

filters : filter_data equal (some option) fields ≡ ok filtered
unfolding filter_data exclude include filter filter_fields first_match copy_field get put delete
filters = refl

get-filter_data_example :
    get "user" filtered ≡ (if passes equal option "user" then get "user" fields else none)
get-filter_data_example = get-filter_data equal option fields filtered "user" filters

-- Templates that are parsed into a list of their names, and render to what their text says.
abbrev echo : Engine Bytes
echo = record {
  Templates = Map String String;
  new = [];
  parse = λ name t ts. ok ((name, t) ∷ ts);
  execute_template =
      λ name input ts. elim (get name ts) [ none ↦ err (library 1) | some _ ↦ ok input ];
}

abbrev with_templates : SecretTransformationOption
with_templates = record option {
  keyed_templates =
      record { key = ""; name = "common"; text = "" }
      ∷ record { key = "url"; name = "a"; text = "x" }
      ∷ [];
}

renders : render_templates echo with_templates (5 ∷ []) ≡ ok (("url", 5 ∷ []) ∷ [])
unfolding render_templates load_templates parse_all render_all get put delete
renders = refl

render_templates-last_output_example :
    (t : Map String String) × Parses echo echo.new with_templates.keyed_templates t
    × (all_render echo t (5 ∷ []) with_templates.keyed_templates ≡ true)
    × ((k : String)
        → get k (("url", 5 ∷ []) ∷ [])
          ≡ last_output echo t (5 ∷ []) with_templates.keyed_templates k)
render_templates-last_output_example =
    render_templates-last_output echo with_templates (5 ∷ []) (("url", 5 ∷ []) ∷ []) renders

abbrev made : Map String Bytes
made = ("user", 1 ∷ []) ∷ ("password", 9 ∷ []) ∷ ("_raw", 0 ∷ []) ∷ []

makes : make_k8s_data number equal fields rendered (0 ∷ []) option ≡ ok made
unfolding make_k8s_data start_data add_fields marshal_json filter_data exclude include filter
    filter_fields first_match copy_field get put delete copy_into
makes = refl

get-make_k8s_data_example :
    (get "password" made
      ≡ or_else (get "password" rendered) (
          if not option.exclude_raw && raw_key == "password"
          then some (0 ∷ [])
          else if passes equal option "password"
          then encoded number equal (get "password" fields)
          else none))
    × (is_some (get "password" made) ≡ (
        has "password" rendered
        || ((not option.exclude_raw && raw_key == "password")
            || (passes equal option "password" && has "password" fields))))
    × (option.exclude_raw ≡ false → (has raw_key fields ≡ false) × (has raw_key rendered ≡ false))
get-make_k8s_data_example =
    get-make_k8s_data number equal "password" fields rendered made (0 ∷ []) option makes
