-- ===== src/Api/Transformation.antt =====
-- api/v1beta1/secrettransformation_types.go: templates and filters that destinations share.
use vault_secrets_operator.Base.{String, Bool, Option, List}
use vault_secrets_operator.Base.Map.{Map}
use vault_secrets_operator.Api.Destination.{Template}

-- `valid` is Status.Valid; SourceTemplate has the fields of Template.
pub record SecretTransformation : Type 0 where
  pub valid : Option Bool
  pub templates : Map String Template
  pub source_templates : List Template
  pub includes : List String
  pub excludes : List String
