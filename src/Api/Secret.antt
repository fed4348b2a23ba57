-- ===== src/Api/Secret.antt =====
-- corev1.Secret with the metadata that helpers/secrets.go reads and writes, and the errors of the
-- Kubernetes API that the operator tells apart.
use vault_secrets_operator.Base.{
  ℕ, String, ◌≡◌, ◌↔◌, Bool, true, ◌&&◌, List, arith, Key, ◌==◌, text_key, eq_iff,
}
use vault_secrets_operator.Base.Map.{Map}
use vault_secrets_operator.Api.Names.{ObjectKey}

pub data ApiError : Type 0 where
  not_found already_exists : ApiError
  failure : ℕ → ApiError

abbrev pub is_not_found : ApiError → Bool
is_not_found not_found = true
is_not_found _ = Bool.false

abbrev pub is_already_exists : ApiError → Bool
is_already_exists already_exists = true
is_already_exists _ = Bool.false

abbrev pub Bytes : Type 0
Bytes = List ℕ

pub record OwnerReference : Type 0 where
  pub api_version : String
  pub kind : String
  pub name : String
  pub uid : String

pub OwnerReference-same_iff :
    (a b : OwnerReference)
    → ((a.api_version == b.api_version && a.kind == b.kind && a.name == b.name && a.uid == b.uid)
        ≡ true)
      ↔ (a ≡ b)
OwnerReference-same_iff a b = ground (
  arith,
  eq_iff a.api_version b.api_version,
  eq_iff a.kind b.kind,
  eq_iff a.name b.name,
  eq_iff a.uid b.uid,
)

instance unfoldable pub owner_reference_key : Key OwnerReference
owner_reference_key = record {
  same = λ a b.
      a.api_version == b.api_version && a.kind == b.kind && a.name == b.name && a.uid == b.uid;
  same_iff = OwnerReference-same_iff;
}

pub record Secret : Type 0 where
  pub key : ObjectKey
  pub labels : Map String String
  pub annotations : Map String String
  pub owner_references : List OwnerReference
  pub resource_version : String
  pub generation : ℕ
  pub type : String
  pub immutable : Bool
  pub contents : Map String Bytes  -- Data
