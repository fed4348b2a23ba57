-- ===== src/Common/Errors.antt =====
-- The errors of the common and helpers packages, as values.
use vault_secrets_operator.Base.{ℕ, String, Bool, true, false, ◌||◌, List}
use vault_secrets_operator.Api.Names.{ObjectKey}
use vault_secrets_operator.Api.Secret.{ApiError}

-- The errors that checkSecretIsOwnedByObj joins.
pub data OwnershipError : Type 0 where
  invalid_owner_label : String → Bool → OwnershipError
  invalid_owner_references no_owner_references : OwnershipError
  not_the_owner : ObjectKey → OwnershipError

pub data Error : Type 0 where
  api : ApiError → Error
  unsupported_type : Error
  invalid_name : String → Error
  empty_name empty_namespace : Error  -- InvalidObjectKeyError
  invalid_destination : Error → Error
  destination_missing : ObjectKey → Error
  empty_uid : ObjectKey → Error
  ownership : List OwnershipError → Error
  no_scheme_kind : Error
  namespace_not_allowed : String → ObjectKey → Error
  no_operator_namespace : Error
  no_global_ref : ObjectKey → Error
  invalid_global_ref : ObjectKey → Error → Error
  invalid_object_ref : Error → Error
  default_vault_auth_not_allowed : ObjectKey → Error
  default_vault_auth_not_found : List String → Error
  failed_getting : ObjectKey → ApiError → Error
  invalid_merge : Error → Error
  no_auth_method : ObjectKey → ObjectKey → Error
  not_configured : String → ObjectKey → Error
  validation : String → Error
  unsupported_auth_method : String → Error
  mount_not_set : ObjectKey → ObjectKey → Error
  unsupported_strategy : String → Error
  object_not_found : Error
  storage_encryption : ℕ → Error
  no_storage_encryption : ObjectKey → Error
  contains_raw : Error  -- SecretDataErrorContainsRaw
  no_templates template_name_empty : Error
  library : ℕ → Error  -- an error of a library, by a number
  duplicate_template_name : String → Error
  duplicate_transformation_ref invalid_transformation_ref : ObjectKey → Error
  template_not_found : String → ObjectKey → Error
  missing_hmac_key : Error
  invalid_key_length : ℕ → Error
  joined : Error → Error → Error
  vault_response : ℕ → List String → Error  -- api.ResponseError: the status and the messages
  nil_response nil_raw : Error
  unsupported_method unsupported_secret_type : String → Error
  lease_truncated : ℕ → ℕ → Error  -- LeaseTruncatedError
  lease_id_changed : String → String → Error
  invalid_last_vault_rotation : Error → Error
  invalid_rotation_period invalid_ttl : Error
  near_rotation not_rotated : Error
  invalid_duration : String → Error → Error
  below_minimum : String → ℕ → Error
  reading_hmac_key : ObjectKey → Error → Error

-- errors.Is(err, InvalidObjectKeyError), through the errors that wrap one.
abbrev pub is_invalid_object_key : Error → Bool
is_invalid_object_key empty_name = true
is_invalid_object_key empty_namespace = true
is_invalid_object_key (invalid_global_ref o e) = is_invalid_object_key e
is_invalid_object_key (invalid_object_ref e) = is_invalid_object_key e
is_invalid_object_key (joined a b) = is_invalid_object_key a || is_invalid_object_key b
is_invalid_object_key (invalid_destination e) = is_invalid_object_key e
is_invalid_object_key _ = false
