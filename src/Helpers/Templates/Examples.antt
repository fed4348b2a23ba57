-- ===== src/Helpers/Templates/Examples.antt =====
-- Gathering an in-line template and those of a transformation that the destination refers to.
use vault_secrets_operator.Base.{
  ℕ, ◌≡◌, refl, String, true, false, some, List, [], ◌∷◌, ◌==◌, text_key, contains, if◌then◌else◌,
}
use vault_secrets_operator.Base.Map.{get, put, delete}
use vault_secrets_operator.Base.Result.{Result, ok, err}
use vault_secrets_operator.Api.Names.{ObjectKey, object_key}
use vault_secrets_operator.Api.Secret.{ApiError, not_found}
use vault_secrets_operator.Api.Destination.{Template, TransformationRef}
use vault_secrets_operator.Api.Transformation.{SecretTransformation}
use vault_secrets_operator.Common.Metadata.{SyncableSecretMetaData}
use vault_secrets_operator.Helpers.Filter.{KeyedTemplate}
use vault_secrets_operator.Helpers.Templates.{
  add_template, add_inline, add_patterns, add_refs, add_unseen, insert, sort, start, add_sources,
  add_transformation, add_transformation_ref, add_transformation_refs, gather, gather_templates,
}
use vault_secrets_operator.Helpers.Templates.Unique.{names, are_unique, gather_templates-are_unique}
use vault_secrets_operator.Helpers.Templates.Inline.{is_among, inline, gather_templates-inline}

abbrev url : Template
url = record { name = ""; text = "{{ url }}" }

abbrev shared : SecretTransformation
shared = record {
  valid = some true;
  templates = ("user", record { name = "user"; text = "u" }) ∷ [];
  source_templates = record { name = "common"; text = "c" } ∷ [];
  includes = "a" ∷ [];
  excludes = "z" ∷ "b" ∷ [];
}

abbrev key_of_shared : ObjectKey
key_of_shared = record { namespace = "apps"; name = "shared" }

abbrev get_transformation : ObjectKey → Result ApiError SecretTransformation
get_transformation key = if key == key_of_shared then ok shared else err not_found

abbrev decimal : ℕ → String
decimal n = "0"

abbrev reference : TransformationRef
reference = record {
  namespace = "";
  name = "shared";
  template_refs = [];
  ignore_includes = true;
  ignore_excludes = false;
}

abbrev with_refs : List TransformationRef → SyncableSecretMetaData
with_refs refs = record {
  api_version = "v1beta1";
  kind = "VaultStaticSecret";
  key = record { namespace = "apps"; name = "web" };
  destination = record {
    name = "creds";
    create = true;
    overwrite = false;
    labels = [];
    annotations = [];
    type = "";
    transformation = record {
      templates = ("url", url) ∷ [];
      transformation_refs = refs;
      includes = [];
      excludes = [];
      exclude_raw = false;
    };
  };
  auth_ref = "";
}

abbrev meta : SyncableSecretMetaData
meta = with_refs (reference ∷ [])

abbrev keyed : List KeyedTemplate
keyed =
    record { key = ""; name = "common"; text = "c" }
    ∷ record { key = "url"; name = "apps/web/url"; text = "{{ url }}" }
    ∷ record { key = "user"; name = "user"; text = "u" }
    ∷ []

gathers : gather_templates get_transformation decimal meta ≡ ok (keyed, "b" ∷ "z" ∷ [], [])
unfolding gather_templates gather start add_inline add_template add_patterns add_refs add_unseen
    insert sort add_sources add_transformation add_transformation_ref add_transformation_refs
    contains object_key get put delete
gathers = refl

gather_templates-are_unique_example :
    (are_unique (names keyed) ≡ true) × (contains "" (names keyed) ≡ false)
gather_templates-are_unique_example =
    gather_templates-are_unique get_transformation decimal meta keyed ("b" ∷ "z" ∷ []) [] gathers

has_url : get "url" meta.destination.transformation.templates ≡ some url
unfolding get
has_url = refl

gather_templates-inline_example : is_among (inline meta.key "url" url) keyed ≡ true
gather_templates-inline_example =
    gather_templates-inline get_transformation decimal meta keyed ("b" ∷ "z" ∷ []) [] "url" url
      gathers has_url
