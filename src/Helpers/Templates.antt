-- ===== src/Helpers/Templates.antt =====
-- helpers/template.go: gatherTemplates and NewSecretTransformationOption.
mod Steps
pub mod Unique
pub mod Inline
mod Examples
use Prim.Native.String
use Prim.Native.Nat.{Ordering}
use vault_secrets_operator.Base.{
  ℕ, suc, String, Bool, true, false, not, Option, none, some, List, [], ◌∷◌, ◌++◌, ◌==◌, ◌||◌,
  text_key, if◌then◌else◌, contains, map,
}
use vault_secrets_operator.Base.Map.{Map, get, put, has}
use vault_secrets_operator.Base.Result.{Result, ok, err, ◌>>=◌}
use vault_secrets_operator.Api.Names.{ObjectKey, object_key}
use vault_secrets_operator.Api.Secret.{ApiError}
use vault_secrets_operator.Api.Destination.{
  Template, TemplateRef, TransformationRef, Transformation,
}
use vault_secrets_operator.Api.Syncable.{Object, meta_of}
use vault_secrets_operator.Api.Transformation.{SecretTransformation}
use vault_secrets_operator.Common.Errors.{
  Error, api, template_name_empty, duplicate_template_name, duplicate_transformation_ref,
  invalid_transformation_ref, template_not_found,
}
use vault_secrets_operator.Common.Metadata.{SyncableSecretMetaData, new_syncable_secret_meta_data}
use vault_secrets_operator.Helpers.Filter.{KeyedTemplate, SecretTransformationOption}

-- `fmt.Sprintf("%s/%s", ...)`
abbrev slash_join : String → String → String
slash_join a b = String.◌++◌ a (String.◌++◌ "/" b)

abbrev key_text : ObjectKey → String
key_text key = slash_join key.namespace key.name

-- GetTransformationRefObjKeys
unfoldable pub get_transformation_ref_obj_keys : Transformation → String → List ObjectKey
get_transformation_ref_obj_keys t default_ns =
    map
      (λ reference. record {
        namespace = if not (reference.namespace == "") then reference.namespace else default_ns;
        name = reference.name;
      })
      t.transformation_refs

-- The variables that the closures of gatherTemplates share: errs, seenTemplates, keyedTemplates
-- and the two sets of the fieldFilters.
pub record Gathered : Type 0 where
  pub errs : List Error
  pub seen : Map String Template
  pub keyed : List KeyedTemplate
  pub excludes : List String
  pub includes : List String

abbrev fail : Error → Gathered → Gathered
fail e s = record s { errs = s.errs ++ (e ∷ []) }

unfoldable pub add_template : Template → String → Gathered → Gathered
add_template t key s =
    if has t.name s.seen
    then fail (duplicate_template_name t.name) s
    else if t.name == ""
    then fail template_name_empty s
    else record s {
      seen = put t.name t s.seen;
      keyed = s.keyed ++ (record { key = key; name = t.name; text = t.text } ∷ []);
    }

-- `name := t.Name; if name == "" { name = ... }`
abbrev named : String → Template → Template
named default t = record { name = if t.name == "" then default else t.name; text = t.text }

-- The in-line templates of the destination.
unfoldable pub add_inline : ObjectKey → Map String Template → Gathered → Gathered
add_inline obj [] s = s
add_inline obj ((key, t) ∷ ts) s =
    add_inline obj ts (add_template (named (slash_join (key_text obj) key) t) key s)

-- fieldFilters.add
unfoldable pub add_patterns : List String → List String → List String
add_patterns set [] = set
add_patterns set (p ∷ ps) = add_patterns (if contains p set then set else p ∷ set) ps

-- One template reference.
unfoldable pub add_ref : ObjectKey → SecretTransformation → TemplateRef → Gathered → Gathered
add_ref key obj r s =
    if has r.name s.seen
    then fail (duplicate_template_name r.name) s
    else elim (get r.name obj.templates) [
      | none ↦ fail (template_not_found r.name key) s
      | some t ↦ add_template t (if r.key_override == "" then r.name else r.key_override) s
    ]

unfoldable pub add_refs : ObjectKey → SecretTransformation → List TemplateRef → Gathered → Gathered
add_refs key obj [] s = s
add_refs key obj (r ∷ rs) s = add_refs key obj rs (add_ref key obj r s)

-- All templates of a transformation that is referred to without naming any; what has been seen
-- takes precedence.
unfoldable pub add_unseen : ObjectKey → Map String Template → Gathered → Gathered
add_unseen key [] s = s
add_unseen key ((name, t) ∷ ts) s =
    add_unseen key ts (
      if has name s.seen then s else add_template (named (slash_join (key_text key) name) t) name s)

-- slices.Sort and slices.SortFunc, by a text.
unfoldable pub insert {ℓ} : {A : Type ℓ} → (A → String) → A → List A → List A
insert by x [] = x ∷ []
insert by x (y ∷ ys) =
    let rest = insert by x ys in
    elim (String.compare (by y) (by x)) [ Ordering.lt ↦ y ∷ rest | _ ↦ x ∷ y ∷ ys ]

unfoldable pub sort {ℓ} : {A : Type ℓ} → (A → String) → List A → List A
sort by [] = []
sort by (x ∷ xs) = insert by x (sort by xs)

-- What KeyedTemplate.Cmp compares.
abbrev cmp_text : KeyedTemplate → String
cmp_text t = String.◌++◌ t.key (String.◌++◌ "0" t.name)

-- GetTransformationRefObjKeys, for one reference.
abbrev pub ref_key : String → TransformationRef → ObjectKey
ref_key default r = record {
  namespace = if r.namespace == "" then default else r.namespace;
  name = r.name;
}

-- Nothing but the destination's own patterns.
unfoldable pub start : SyncableSecretMetaData → Gathered
start meta = record {
  errs = [];
  seen = [];
  keyed = [];
  excludes = add_patterns [] meta.destination.transformation.excludes;
  includes = add_patterns [] meta.destination.transformation.includes;
}

-- `get_transformation` is the client's Get, and `decimal` prints an index.
module _ (get_transformation : ObjectKey → Result ApiError SecretTransformation)
    (decimal : ℕ → String) where
  unfoldable pub add_sources : ObjectKey → ℕ → List Template → Gathered → Gathered
  add_sources key i [] s = s
  add_sources key i (t ∷ ts) s =
      add_sources key (suc i) ts
        (add_template (named (slash_join (key_text key) (decimal i)) t) "" s)

  -- What a valid transformation adds.
  unfoldable pub add_transformation :
      ObjectKey → TransformationRef → SecretTransformation → Gathered → Gathered
  add_transformation key r obj s =
      let filtered : Gathered = record s {
        excludes = if r.ignore_excludes then s.excludes else add_patterns s.excludes obj.excludes;
        includes = if r.ignore_includes then s.includes else add_patterns s.includes obj.includes;
      } in
      let sources =
        add_sources key 0 obj.source_templates (add_refs key obj r.template_refs filtered) in
      elim r.template_refs [ [] ↦ add_unseen key obj.templates sources | _ ↦ sources ]

  -- One reference whose object has not been seen.
  unfoldable pub add_transformation_ref : ObjectKey → TransformationRef → Gathered → Gathered
  add_transformation_ref key r s = elim (get_transformation key) [
    | err e ↦ fail (api e) s
    | ok obj ↦ elim obj.valid [
      | none ↦ fail (invalid_transformation_ref key) s
      | some valid ↦
          if valid then add_transformation key r obj s else fail (invalid_transformation_ref key) s
    ]
  ]

  unfoldable pub add_transformation_refs :
      String → List ObjectKey → List TransformationRef → Gathered → Gathered
  add_transformation_refs ns seen [] s = s
  add_transformation_refs ns seen (r ∷ rs) s = elim (contains (ref_key ns r) seen) [
    | true ↦
        add_transformation_refs ns seen rs (fail (duplicate_transformation_ref (ref_key ns r)) s)
    | false ↦
        add_transformation_refs ns (ref_key ns r ∷ seen) rs
          (add_transformation_ref (ref_key ns r) r s)
  ]

  unfoldable pub gather : SyncableSecretMetaData → Gathered
  gather meta =
      let t = meta.destination.transformation in
      add_transformation_refs meta.key.namespace [] t.transformation_refs
        (add_inline meta.key t.templates (start meta))

  -- The templates in their order, and the sorted patterns to exclude and to include.
  unfoldable pub gather_templates :
      SyncableSecretMetaData → Result (List Error) (List KeyedTemplate × List String × List String)
  gather_templates meta =
      let s = gather meta in
      elim s.errs [
        | [] ↦ ok (sort cmp_text s.keyed, sort (λ p. p) s.excludes, sort (λ p. p) s.includes)
        | e ∷ es ↦ err (e ∷ es)
      ]

  -- `global` is nil or the ExcludeRaw of the operator's options.
  unfoldable pub new_secret_transformation_option :
      Option Bool → Object → Result (List Error) SecretTransformationOption
  new_secret_transformation_option global obj = elim (new_syncable_secret_meta_data obj) [
    | err e ↦ err (e ∷ [])
    | ok meta ↦ do
      (keyed, excludes, includes) ← gather_templates meta
      ok (record {
        excludes = excludes;
        includes = includes;
        annotations = (meta_of obj).annotations;
        labels = (meta_of obj).labels;
        keyed_templates = keyed;
        exclude_raw =
            meta.destination.transformation.exclude_raw
            || (elim global [ none ↦ false | some b ↦ b ]);
      })
  ]
