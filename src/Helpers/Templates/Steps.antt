-- ===== src/Helpers/Templates/Steps.antt =====
-- What every step of gathering templates keeps.
use vault_secrets_operator.Base.{
  ℕ, suc, String, Bool, true, false, Option, none, some, inl, inr, List, [], ◌∷◌, ◌==◌, text_key,
  if◌then◌else◌, contains,
}
use vault_secrets_operator.Base.Map.{Map, get, has}
use vault_secrets_operator.Base.Result.{Result, Result-cases}
use vault_secrets_operator.Api.Names.{ObjectKey, object_key}
use vault_secrets_operator.Api.Secret.{ApiError}
use vault_secrets_operator.Api.Destination.{Template, TemplateRef, TransformationRef}
use vault_secrets_operator.Api.Transformation.{SecretTransformation}
use vault_secrets_operator.Common.Errors.{
  Error, template_not_found, api, invalid_transformation_ref, duplicate_transformation_ref,
}
use vault_secrets_operator.Common.Metadata.{SyncableSecretMetaData}
use vault_secrets_operator.Helpers.Templates.{
  Gathered, fail, fail as fail_with, add_template, add_inline, add_ref, add_refs, add_unseen,
  add_sources, add_transformation, add_transformation_ref, add_transformation_refs, gather, ref_key,
  start,
}

-- An error, a template or patterns that are added keep the property.
pub record IsInvariant (P : Gathered → Type 0) : Type 0 where
  pub fail : (e : Error) (s : Gathered) → P s → P (fail_with e s)
  pub add : (t : Template) (key : String) (s : Gathered) → P s → P (add_template t key s)
  pub patterns :
      (excludes includes : List String) (s : Gathered)
      → P s
      → P (record s { excludes = excludes; includes = includes })

module _ (P : Gathered → Type 0) (i : IsInvariant P) where
  if_keeps : (b : Bool) (s t : Gathered) → P s → P t → P (if b then s else t)
  if_keeps true s t g h = g
  if_keeps false s t g h = h

  pub add_inline_keeps :
      (obj : ObjectKey) (ts : Map String Template) (s : Gathered) → P s → P (add_inline obj ts s)
  unfolding add_inline
  add_inline_keeps obj [] s g = g
  add_inline_keeps obj ((key, t) ∷ ts) s g = add_inline_keeps obj ts _ (i.add _ key s g)

  add_ref_keeps :
      (key : ObjectKey) (obj : SecretTransformation) (r : TemplateRef) (s : Gathered)
      → P s
      → P (add_ref key obj r s)
  unfolding add_ref
  add_ref_keeps key obj r s g =
      if_keeps (has r.name s.seen) _ _ (i.fail _ s g)
        (elim (get r.name obj.templates)
          as (λ o. P (elim o [
            | none ↦ fail (template_not_found r.name key) s
            | some t ↦ add_template t (if r.key_override == "" then r.name else r.key_override) s
          ])) [ none ↦ i.fail _ s g | some t ↦ i.add t _ s g ])

  add_refs_keeps :
      (key : ObjectKey) (obj : SecretTransformation) (rs : List TemplateRef) (s : Gathered)
      → P s
      → P (add_refs key obj rs s)
  unfolding add_refs
  add_refs_keeps key obj [] s g = g
  add_refs_keeps key obj (r ∷ rs) s g = add_refs_keeps key obj rs _ (add_ref_keeps key obj r s g)

  add_unseen_keeps :
      (key : ObjectKey) (ts : Map String Template) (s : Gathered) → P s → P (add_unseen key ts s)
  unfolding add_unseen
  add_unseen_keeps key [] s g = g
  add_unseen_keeps key ((name, t) ∷ ts) s g =
      add_unseen_keeps key ts _ (if_keeps (has name s.seen) s _ g (i.add _ name s g))

  module _ (get_transformation : ObjectKey → Result ApiError SecretTransformation)
      (decimal : ℕ → String) where
    add_sources_keeps :
        (key : ObjectKey) (n : ℕ) (ts : List Template) (s : Gathered)
        → P s
        → P (add_sources get_transformation decimal key n ts s)
    unfolding add_sources
    add_sources_keeps key n [] s g = g
    add_sources_keeps key n (t ∷ ts) s g = add_sources_keeps key (suc n) ts _ (i.add _ "" s g)

    unseen_or_not_keeps :
        (key : ObjectKey) (ts : Map String Template) (refs : List TemplateRef) (s : Gathered)
        → P s
        → P (elim refs [ [] ↦ add_unseen key ts s | _ ↦ s ])
    unseen_or_not_keeps key ts [] s g = add_unseen_keeps key ts s g
    unseen_or_not_keeps key ts (r ∷ rs) s g = g

    add_transformation_keeps :
        (key : ObjectKey) (r : TransformationRef) (obj : SecretTransformation) (s : Gathered)
        → P s
        → P (add_transformation get_transformation decimal key r obj s)
    unfolding add_transformation
    add_transformation_keeps key r obj s g =
        unseen_or_not_keeps key obj.templates r.template_refs _ (
          add_sources_keeps key 0 obj.source_templates _
            (add_refs_keeps key obj r.template_refs _ (i.patterns _ _ s g)))

    valid_or_not_keeps :
        (key : ObjectKey) (r : TransformationRef) (obj : SecretTransformation) (v : Option Bool)
        (s : Gathered)
        → P s
        → P (elim v [
          | none ↦ fail (invalid_transformation_ref key) s
          | some valid ↦
              if valid
              then add_transformation get_transformation decimal key r obj s
              else fail (invalid_transformation_ref key) s
        ])
    valid_or_not_keeps key r obj none s g = i.fail _ s g
    valid_or_not_keeps key r obj (some v) s g =
        if_keeps v _ _ (add_transformation_keeps key r obj s g) (i.fail _ s g)

    add_transformation_ref_keeps :
        (key : ObjectKey) (r : TransformationRef) (s : Gathered)
        → P s
        → P (add_transformation_ref get_transformation decimal key r s)
    unfolding add_transformation_ref
    add_transformation_ref_keeps key r s g = elim (Result-cases (get_transformation key)) [
      | inl (x, e) ↦ rw (e, add_transformation_ref) (i.fail (api x) s g)
      | inr (obj, e) ↦ rw (e, add_transformation_ref) (valid_or_not_keeps key r obj obj.valid s g)
    ]

    pub add_transformation_refs_keeps :
        (ns : String) (seen : List ObjectKey) (rs : List TransformationRef) (s : Gathered)
        → P s
        → P (add_transformation_refs get_transformation decimal ns seen rs s)
    unfolding add_transformation_refs
    add_transformation_refs_keeps ns seen [] s g = g
    add_transformation_refs_keeps ns seen (r ∷ rs) s g =
        elim (contains (ref_key ns r) seen)
          as (λ b. P (elim b [
            | true ↦
                add_transformation_refs get_transformation decimal ns seen rs
                  (fail (duplicate_transformation_ref (ref_key ns r)) s)
            | false ↦
                add_transformation_refs get_transformation decimal ns (ref_key ns r ∷ seen) rs
                  (add_transformation_ref get_transformation decimal (ref_key ns r) r s)
          ])) [
            | true ↦ add_transformation_refs_keeps ns seen rs _ (i.fail _ s g)
            | false ↦
                add_transformation_refs_keeps ns (ref_key ns r ∷ seen) rs _
                  (add_transformation_ref_keeps (ref_key ns r) r s g)
          ]

    pub gather_from_keeps :
        (meta : SyncableSecretMetaData)
        → P (start meta)
        → P (gather get_transformation decimal meta)
    unfolding gather start
    gather_from_keeps meta g =
        let t = meta.destination.transformation in
        add_transformation_refs_keeps meta.key.namespace [] t.transformation_refs _
          (add_inline_keeps meta.key t.templates _ g)
