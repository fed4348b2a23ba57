-- ===== src/Controllers/DynamicSecret/SyncSecret.antt =====
-- controllers/vaultdynamicsecret_controller.go: syncSecret. The resource's status that is changed in
-- memory is returned beside the result.
pub mod Keeps
use vault_secrets_operator.Base.{
  String, Bool, true, false, not, ◌&&◌, Option, none, some, if◌then◌else◌, text_key,
}
use vault_secrets_operator.Base.Map.{Map, delete}
use vault_secrets_operator.Base.Result.{Result, ok, err}
use vault_secrets_operator.Api.Secret.{Bytes}
use vault_secrets_operator.Api.DynamicSecret.{
  DynamicSecret, StaticCreds, Lease, ClientMeta, to_object,
}
use vault_secrets_operator.Helpers.Filter.{SecretTransformationOption}
use vault_secrets_operator.Helpers.Hmac.{handle_secret_hmac}
use vault_secrets_operator.Helpers.Sync.{sync_secret as write_destination}
use vault_secrets_operator.Vault.Responses.{Response, secret, secret_k8s_data}
use vault_secrets_operator.Controllers.Reconciler.{Reconciler, Failure, failed}
use vault_secrets_operator.Controllers.DynamicSecret.{World}
use vault_secrets_operator.Controllers.DynamicSecret.Requests.{do_vault, get_vault_secret_lease}
use vault_secrets_operator.Controllers.DynamicSecret.Rotation.{
  Operation, await_vault_secret_rotation,
}

-- dataToMAC: without what changes from one read to the next.
unfoldable pub data_to_mac : Map String Bytes → Map String Bytes
data_to_mac m = delete "_raw" (
    delete "last_vault_rotation"
      (delete "rotation_period" (delete "rotation_schedule" (delete "ttl" m))))

module _ (r : Reconciler) (retry : Operation r → Operation r) where
  open r use {client, gvk, build, hash, encode, decode, encode_string, validator}

  -- The world and the resource afterwards; the lease, and whether the destination was written.
  abbrev pub Synced : Type 0
  Synced = World r × DynamicSecret × Result Failure (Lease × Bool)

  -- helpers.SyncSecret
  unfoldable pub store : Lease → DynamicSecret → Map String Bytes → World r → Synced
  store lease o m w =
      let (c, left) = write_destination client gvk true (to_object o) m w.cluster in
      (record w { cluster = c }, o, elim left [ none ↦ ok (lease, true) | some e ↦ err (failed e) ])

  unfoldable pub with_mac : Bytes → DynamicSecret → DynamicSecret
  with_mac mac o = record o { common = record (o.common) { secret_mac = encode_string mac } }

  unfoldable pub with_creds : StaticCreds → DynamicSecret → DynamicSecret
  with_creds m o = record o { status = record (o.status) { static_creds = m } }

  -- Static credentials are written if their MAC has changed.
  unfoldable pub store_static :
      Lease → DynamicSecret → StaticCreds → Map String Bytes → World r → Synced
  store_static lease o creds m w =
      elim (handle_secret_hmac client hash encode decode validator (to_object o) (data_to_mac m)
        w.cluster) [
          | err e ↦ (w, o, err (failed e))
          | ok (true, mac) ↦ (w, with_mac mac o, ok (lease, false))
          | ok (false, mac) ↦ store lease (with_creds creds (with_mac mac o)) m w
        ]

  unfoldable pub sync_static :
      ClientMeta → DynamicSecret → SecretTransformationOption → Response → Lease → World r → Synced
  sync_static c o opt response lease w =
      let (v, awaited) = await_vault_secret_rotation r retry c o response w.vault in
      let w' = record w { vault = v } in
      elim awaited [
        | err e ↦ (w', o, err e)
        | ok (creds, rotated) ↦ elim (secret_k8s_data build rotated opt) [
          | err e ↦ (w', o, err (failed e))
          | ok m ↦ store_static lease o creds m w'
        ]
      ]

  unfoldable pub sync_response :
      ClientMeta → DynamicSecret → SecretTransformationOption → Response → World r → Synced
  sync_response c o opt response w = elim (get_vault_secret_lease (secret response)) [
    | err e ↦ (w, o, err e)
    | ok lease ↦
        if not lease.renewable && o.spec.allow_static_creds
        then sync_static c o opt response lease w
        else elim (secret_k8s_data build response opt) [
          | err e ↦ (w, o, err (failed e))
          | ok m ↦ store lease o m w
        ]
  ]

  unfoldable pub sync_secret :
      ClientMeta → DynamicSecret → SecretTransformationOption → World r → Synced
  sync_secret c o opt w =
      let (v, answered) = do_vault r c o w.vault in
      let w' = record w { vault = v } in
      elim answered [ err e ↦ (w', o, err e) | ok response ↦ sync_response c o opt response w' ]
