-- ===== src/Api/Destination.antt =====
-- api/v1beta1/common.go: the destination of a sync and its transformation.
use vault_secrets_operator.Base.{String, Bool, List}
use vault_secrets_operator.Base.Map.{Map}

pub record Template : Type 0 where
  pub name : String
  pub text : String

pub record TemplateRef : Type 0 where
  pub name : String
  pub key_override : String

pub record TransformationRef : Type 0 where
  pub namespace : String
  pub name : String
  pub template_refs : List TemplateRef
  pub ignore_includes : Bool
  pub ignore_excludes : Bool

pub record Transformation : Type 0 where
  pub templates : Map String Template
  pub transformation_refs : List TransformationRef
  pub includes : List String
  pub excludes : List String
  pub exclude_raw : Bool

pub record Destination : Type 0 where
  pub name : String
  pub create : Bool
  pub overwrite : Bool
  pub labels : Map String String
  pub annotations : Map String String
  pub type : String
  pub transformation : Transformation
