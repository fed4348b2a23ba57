-- ===== src/Helpers/Templates/Inline.antt =====
-- The templates of the destination itself.
use vault_secrets_operator.Base.{
  ◌≡◌, refl, ap, ◌∙◌, ℕ, String, Bool, true, false, ◌&&◌, ◌||◌, some, inl, inr, List, [], ◌∷◌, ◌++◌,
  arith, ◌==◌, text_key, eq_iff, Bool-cases,
}
use vault_secrets_operator.Base.Map.{Map, get}
use vault_secrets_operator.Base.Result.{Result, ok}
use vault_secrets_operator.Api.Names.{ObjectKey}
use vault_secrets_operator.Api.Secret.{ApiError}
use vault_secrets_operator.Api.Destination.{Template}
use vault_secrets_operator.Api.Transformation.{SecretTransformation}
use vault_secrets_operator.Common.Errors.{Error, duplicate_template_name, template_name_empty}
use vault_secrets_operator.Common.Metadata.{SyncableSecretMetaData}
use vault_secrets_operator.Helpers.Filter.{KeyedTemplate}
use vault_secrets_operator.Helpers.Templates.Steps.{
  IsInvariant, add_inline_keeps, add_transformation_refs_keeps,
}
use vault_secrets_operator.Helpers.Templates.{
  Gathered, add_template, add_inline, gather, gather_templates, insert, sort, cmp_text, start,
  named, slash_join, key_text,
}

-- The template is among them.
unfoldable pub is_among : KeyedTemplate → List KeyedTemplate → Bool
is_among x [] = false
is_among x (t ∷ ts) = (x.key == t.key && (x.name == t.name && x.text == t.text)) || is_among x ts

is_among-append :
    (x : KeyedTemplate) (xs ys : List KeyedTemplate)
    → is_among x (xs ++ ys) ≡ (is_among x xs || is_among x ys)
unfolding is_among
is_among-append x [] ys = refl
is_among-append x (t ∷ ts) ys = ground (arith, is_among-append x ts ys)

is_among-insert :
    (x y : KeyedTemplate) (ts : List KeyedTemplate)
    → is_among x (insert cmp_text y ts) ≡ is_among x (y ∷ ts)
unfolding insert is_among
is_among-insert x y [] = refl
is_among-insert x y (t ∷ ts) = ground (arith, is_among-insert x y ts)

is_among-sort :
    (x : KeyedTemplate) (ts : List KeyedTemplate) → is_among x (sort cmp_text ts) ≡ is_among x ts
unfolding sort is_among
is_among-sort x [] = refl
is_among-sort x (t ∷ ts) =
    ground (arith, is_among-insert x t (sort cmp_text ts), is_among-sort x ts)

abbrev none_failed : List Error → Bool
none_failed [] = true
none_failed (e ∷ es) = false

none_failed-append : (e : Error) (es : List Error) → none_failed (es ++ (e ∷ [])) ≡ false
none_failed-append e [] = refl
none_failed-append e (x ∷ es) = refl

abbrev is_clean : Gathered → Bool
is_clean s = none_failed s.errs

-- An error has been met, or the template has been gathered.
unfoldable HasOrFails : KeyedTemplate → Gathered → Type 0
HasOrFails x s = is_clean s ≡ true → is_among x s.keyed ≡ true

HasOrFails-IsInvariant : (x : KeyedTemplate) → IsInvariant (HasOrFails x)
unfolding HasOrFails add_template
HasOrFails-IsInvariant x = record {
  fail = λ e s h. ground (arith, none_failed-append e s.errs);
  add = λ t key s h. ground (
    arith,
    none_failed-append (duplicate_template_name t.name) s.errs,
    none_failed-append template_name_empty s.errs,
    is_among-append x s.keyed (record { key = key; name = t.name; text = t.text } ∷ []),
  );
  patterns = λ excludes includes s h. h;
}

added-HasOrFails :
    (t : Template) (key : String) (s : Gathered)
    → HasOrFails (record { key = key; name = t.name; text = t.text }) (add_template t key s)
unfolding HasOrFails add_template is_among
added-HasOrFails t key s =
    let x : KeyedTemplate = record { key = key; name = t.name; text = t.text } in
    ground (
      arith,
      is_among-append x s.keyed (x ∷ []),
      none_failed-append (duplicate_template_name t.name) s.errs,
      none_failed-append template_name_empty s.errs,
      eq_iff key key,
      eq_iff t.name t.name,
      eq_iff t.text t.text,
    )

-- How an in-line template is gathered: without a name it gets one from the object and its key.
abbrev pub inline : ObjectKey → String → Template → KeyedTemplate
inline obj key t = record {
  key = key;
  name = (named (slash_join (key_text obj) key) t).name;
  text = t.text;
}

add_inline-HasOrFails :
    (obj : ObjectKey) (ts : Map String Template) (key : String) (t : Template) (s : Gathered)
    → get key ts ≡ some t
    → HasOrFails (inline obj key t) (add_inline obj ts s)
unfolding add_inline get
add_inline-HasOrFails obj [] key t s h = absurd (ground arith)
add_inline-HasOrFails obj ((j, u) ∷ ts) key t s h = elim (Bool-cases (j == key)) [
  | inl e ↦
      let q : j ≡ key = (eq_iff j key).0 e in
      let p : u ≡ t = ground arith in
      add_inline_keeps (HasOrFails (inline obj key t)) (HasOrFails-IsInvariant (inline obj key t))
        obj ts _ (rw (q, p) (added-HasOrFails (named (slash_join (key_text obj) key) t) key s))
  | inr e ↦ add_inline-HasOrFails obj ts key t _ (ground arith)
]

gather-HasOrFails :
    (get_transformation : ObjectKey → Result ApiError SecretTransformation) (decimal : ℕ → String)
    (meta : SyncableSecretMetaData) (key : String) (t : Template)
    → get key meta.destination.transformation.templates ≡ some t
    → HasOrFails (inline meta.key key t) (gather get_transformation decimal meta)
unfolding gather
gather-HasOrFails get_transformation decimal meta key t g =
    let x = inline meta.key key t in
    add_transformation_refs_keeps (HasOrFails x) (HasOrFails-IsInvariant x) get_transformation
      decimal meta.key.namespace [] meta.destination.transformation.transformation_refs _
      (add_inline-HasOrFails meta.key meta.destination.transformation.templates key t (start meta)
        g)

-- If gathering meets no error, every in-line template of the destination is among the result, under
-- its key.
pub gather_templates-inline :
    (get_transformation : ObjectKey → Result ApiError SecretTransformation) (decimal : ℕ → String)
    (meta : SyncableSecretMetaData) (keyed : List KeyedTemplate) (excludes includes : List String)
    (key : String) (t : Template)
    → gather_templates get_transformation decimal meta ≡ ok (keyed, excludes, includes)
    → get key meta.destination.transformation.templates ≡ some t
    → is_among (inline meta.key key t) keyed ≡ true
unfolding gather_templates
gather_templates-inline get_transformation decimal meta keyed excludes includes key t h g =
    let s = gather get_transformation decimal meta in
    let x = inline meta.key key t in
    let sorted : keyed ≡ sort cmp_text s.keyed = ground arith in
    let has_it : is_among x s.keyed ≡ true =
      unfold HasOrFails in
      gather-HasOrFails get_transformation decimal meta key t g (ground arith) in
    ap (is_among x) sorted ∙ (is_among-sort x s.keyed ∙ has_it)
