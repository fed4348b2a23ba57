-- ===== src/Helpers/Data/Rendered.antt =====
-- What the templates render.
use mathlib.Core.Path.{subst}
use vault_secrets_operator.Base.{
  ◌≡◌, refl, ◌∙◌, String, Bool, true, false, not, Option, none, some, inl, inr, List, [], ◌∷◌,
  arith, ◌==◌, text_key, if◌then◌else◌, or_else,
}
use vault_secrets_operator.Base.Map.{Map, get, put, get-put}
use vault_secrets_operator.Base.Result.{ok, err, Result-cases}
use vault_secrets_operator.Api.Secret.{Bytes}
use vault_secrets_operator.Helpers.Filter.{KeyedTemplate, SecretTransformationOption}
use vault_secrets_operator.Helpers.Data.{
  Engine, parse_all, load_templates, render_all, render_templates,
}

or_else-none {ℓ} : {A : Type ℓ} (a : Option A) → or_else a none ≡ a
or_else-none none = refl
or_else-none (some a) = refl

module _ {Input : Type 0} (engine : Engine Input) where
  -- The output of the last template with a key that is not empty, among those that render.
  unfoldable pub last_output : engine.Templates → Input → List KeyedTemplate → String → Option Bytes
  last_output t input [] k = none
  last_output t input (x ∷ xs) k = or_else (last_output t input xs k) (
      if not (x.key == "")
      then if x.key == k
        then elim (engine.execute_template x.name input t) [ ok b ↦ some b | err _ ↦ none ]
        else none
      else none)

  -- Every template that has a key has a name and renders.
  unfoldable pub all_render : engine.Templates → Input → List KeyedTemplate → Bool
  all_render t input [] = true
  all_render t input (x ∷ xs) =
      let rest = all_render t input xs in
      if x.key == ""
      then rest
      else if x.name == ""
      then false
      else elim (engine.execute_template x.name input t) [ ok _ ↦ rest | err _ ↦ false ]

  -- The templates are added to a set one by one, those without a key too, and each of them parses.
  pub data Parses : engine.Templates → List KeyedTemplate → engine.Templates → Type 0 where
    parsed : {t : engine.Templates} → Parses t [] t
    parse_next :
        {t u v : engine.Templates} {x : KeyedTemplate} {xs : List KeyedTemplate}
        → engine.parse x.name x.text t ≡ ok u
        → Parses u xs v
        → Parses t (x ∷ xs) v

  parse_all-Parses :
      (xs : List KeyedTemplate) (t v : engine.Templates)
      → parse_all engine xs t ≡ ok v
      → Parses t xs v
  unfolding parse_all
  parse_all-Parses [] t v h = subst (Parses t []) (ground arith) parsed
  parse_all-Parses (x ∷ xs) t v h = elim (Result-cases (engine.parse x.name x.text t)) [
    | inl (e, p) ↦ absurd (ground arith)
    | inr (u, p) ↦ parse_next p (parse_all-Parses xs u v (ground arith))
  ]

  get-render_all :
      (t : engine.Templates) (input : Input) (xs : List KeyedTemplate) (k : String)
      (contents r : Map String Bytes)
      → render_all engine t input xs contents ≡ ok r
      → (get k r ≡ or_else (last_output t input xs k) (get k contents))
        × (all_render t input xs ≡ true)
  unfolding render_all last_output all_render
  get-render_all t input [] k contents r h = (ground arith, refl)
  get-render_all t input (x ∷ xs) k contents r h =
      elim (Result-cases (engine.execute_template x.name input t)) [
        | inl (e, p) ↦ ground (arith, get-render_all t input xs k contents r)
        | inr (b, p) ↦ ground (
          arith,
          get-render_all t input xs k contents r,
          get-render_all t input xs k (put x.key b contents) r,
          get-put x.key k b contents,
        )
      ]

  -- If the templates are rendered, they all parse, one after the other, into one set, every one that
  -- has a key has a name and renders with that set, and under each key stands the output of the last
  -- template with it; source templates put nothing there.
  pub render_templates-last_output :
      (opt : SecretTransformationOption) (input : Input) (r : Map String Bytes)
      → render_templates engine opt input ≡ ok r
      → (t : engine.Templates) × Parses engine.new opt.keyed_templates t
        × (all_render t input opt.keyed_templates ≡ true)
        × ((k : String) → get k r ≡ last_output t input opt.keyed_templates k)
  unfolding render_templates get
  render_templates-last_output opt input r h =
      elim (Result-cases (load_templates engine opt.keyed_templates)) [
        | inl (x, e) ↦ absurd (ground arith)
        | inr (t, e) ↦
            let all : render_all engine t input opt.keyed_templates [] ≡ ok r = ground arith in
            let ks = opt.keyed_templates in
            (
              t,
              parse_all-Parses ks engine.new t (unfold load_templates in e),
              (get-render_all t input ks "" [] r all).1,
              λ k. (get-render_all t input ks k [] r all).0 ∙ or_else-none _,
            )
      ]
