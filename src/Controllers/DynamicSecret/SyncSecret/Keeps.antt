-- ===== src/Controllers/DynamicSecret/SyncSecret/Keeps.antt =====
-- What syncSecret leaves as it was, whether it fails or not.
use vault_secrets_operator.Base.{◌≡◌, arith}
use vault_secrets_operator.Api.DynamicSecret.{DynamicSecret, ClientMeta}
use vault_secrets_operator.Helpers.Filter.{SecretTransformationOption}
use vault_secrets_operator.Controllers.Reconciler.{Reconciler}
use vault_secrets_operator.Controllers.DynamicSecret.{World}
use vault_secrets_operator.Controllers.DynamicSecret.Rotation.{Operation}
use vault_secrets_operator.Controllers.DynamicSecret.SyncSecret.{
  Synced, sync_secret, sync_response, sync_static, store_static, store, with_mac, with_creds,
}

module _ (r : Reconciler) (retry : Operation r → Operation r) where
  pub record Keeps (w : World r) (o : DynamicSecret) (s : Synced r retry) : Type 0 where
    pub objects : s.0.objects ≡ w.objects
    pub sync_registry : s.0.sync_registry ≡ w.sync_registry
    pub back_offs : s.0.back_offs ≡ w.back_offs
    pub faults : s.0.faults ≡ w.faults
    pub meta : s.1.meta ≡ o.meta
    pub deleting : s.1.deleting ≡ o.deleting
    pub client_meta : s.1.status.client_meta ≡ o.status.client_meta

  pub sync_secret-Keeps :
      (c : ClientMeta) (o : DynamicSecret) (opt : SecretTransformationOption) (w : World r)
      → Keeps w o (sync_secret r retry c o opt w)
  unfolding sync_secret sync_response sync_static store_static store with_mac with_creds
  sync_secret-Keeps c o opt w = record {
    objects = ground arith;
    sync_registry = ground arith;
    back_offs = ground arith;
    faults = ground arith;
    meta = ground arith;
    deleting = ground arith;
    client_meta = ground arith;
  }
