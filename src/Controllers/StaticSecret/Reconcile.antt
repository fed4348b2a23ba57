-- ===== src/Controllers/StaticSecret/Reconcile.antt =====
-- controllers/vaultstaticsecret_controller.go: Reconcile, handleDeletion and newKVRequest.
pub mod Delivered
mod Examples
use vault_secrets_operator.Base.{
  ℕ, ◌*◌, String, Bool, true, false, not, ◌&&◌, Option, none, some, List, [], ◌∷◌, ◌==◌, text_key,
  nat_eq, if◌then◌else◌,
}
use vault_secrets_operator.Base.Map.{Map}
use vault_secrets_operator.Base.Result.{Result, ok, err}
use vault_secrets_operator.Api.Names.{ObjectKey}
use vault_secrets_operator.Api.Secret.{Bytes, is_not_found}
use vault_secrets_operator.Api.DynamicSecret.{ClientMeta}
use vault_secrets_operator.Api.StaticSecret.{StaticSecret, to_object}
use vault_secrets_operator.Common.Errors.{Error, api, unsupported_secret_type}
use vault_secrets_operator.Helpers.Filter.{SecretTransformationOption}
use vault_secrets_operator.Helpers.Hmac.{handle_secret_hmac}
use vault_secrets_operator.Helpers.Sync.{sync_secret as write_destination}
use vault_secrets_operator.Helpers.Templates.{get_transformation_ref_obj_keys}
use vault_secrets_operator.Vault.Requests.{ReadRequest, kv_read_request_v1, kv_read_request_v2}
use vault_secrets_operator.Vault.Responses.{
  Response, ApiSecret, secret, contents, is_forbidden_error,
}
use vault_secrets_operator.Controllers.BackOff
use vault_secrets_operator.Controllers.References
use vault_secrets_operator.Controllers.References.{secret_transformation}
use vault_secrets_operator.Controllers.Horizon.{compute_horizon_with_jitter, parse_duration_string}
use vault_secrets_operator.Controllers.Reconciler.{Reconciler}
use vault_secrets_operator.Controllers.StaticSecret.{
  World, event, get_object, update_status, remove_finalizer,
}
use vault_secrets_operator.Controllers.StaticSecret.Watcher.{
  Outside, ensure_event_watcher, un_watch_events,
}

-- What Reconcile returns: the time of the next reconciliation, or none if it is 0, an error, or a
-- panic.
pub data Reply : Type 0 where
  done : Reply
  requeue_after : ℕ → Reply
  returned : Error → Reply
  panic : Reply

-- `RequeueAfter: entry.NextBackOff()`. backoff.Stop is negative, and then nothing is queued.
unfoldable pub next_attempt : Option ℕ → Reply
next_attempt none = done
next_attempt (some interval) = requeue_after interval

unfoldable pub new_kv_request : StaticSecret → Result Error ReadRequest
new_kv_request o =
    if o.spec.type == "kv-v1"
    then ok (kv_read_request_v1 o.spec.mount o.spec.path)
    else if o.spec.type == "kv-v2"
    then ok (kv_read_request_v2 o.spec.mount o.spec.path o.spec.version)
    else err (unsupported_secret_type o.spec.type)

-- The variables requeueAfter, doRolloutRestart and doSync, and the resource with its new MAC.
pub record Decision : Type 0 where
  pub requeue : ℕ
  pub do_rollout_restart : Bool
  pub do_sync : Bool
  pub object : StaticSecret

-- `o.Spec.HMACSecretData != nil && *o.Spec.HMACSecretData`
abbrev pub is_set : Option Bool → Bool
is_set none = false
is_set (some b) = b

module _ (r : Reconciler) (out : Outside r) where
  open r use {
    client, factory, validator, hash, gvk, transformation_option, build, encode, decode,
    encode_string, parse_duration, fresh, next, random,
  }

  abbrev pub Outcome : Type 0
  Outcome = World r × Reply

  -- `RequeueAfter: computeHorizonWithJitter(requeueDurationOnError)`
  abbrev pub on_error : Reply
  on_error = requeue_after (compute_horizon_with_jitter 5_000_000_000 (random 1))

  unfoldable pub with_mac : Bytes → StaticSecret → StaticSecret
  with_mac mac o = record o { common = record (o.common) { secret_mac = encode_string mac } }

  -- Whether the destination is written. Without a refresh period, drift is looked for every minute.
  unfoldable pub decide : StaticSecret → Map String Bytes → ℕ → World r → Result Error Decision
  decide o m requeue w =
      if is_set o.spec.hmac_secret_data
      then elim (handle_secret_hmac client hash encode decode validator (to_object o) m w.cluster) [
        | err e ↦ err e
        | ok (macs_equal, mac) ↦ ok (record {
          requeue =
              if nat_eq requeue 0
              then compute_horizon_with_jitter 60_000_000_000 (random 2)
              else requeue;
          do_rollout_restart = not (o.common.secret_mac == "");
          do_sync = if nat_eq o.last_generation o.meta.generation then not macs_equal else true;
          object = with_mac mac o;
        })
      ]
      else ok (record { requeue = requeue; do_rollout_restart = false; do_sync = true; object = o })

  -- The event watcher of the resource.
  unfoldable pub watch : StaticSecret → ClientMeta → World r → World r
  watch o c w =
      let (w', left) = ensure_event_watcher r out o c w in
      if is_set o.spec.sync_config
      then elim left [ none ↦ w' | some _ ↦ event r "EventWatcherError" w' ]
      else un_watch_events r o w

  -- The end of Reconcile.
  unfoldable pub finish : StaticSecret → ClientMeta → ℕ → World r → Outcome
  finish o c requeue w =
      let (w', left) = update_status r o (watch o c w) in
      elim left [
        | some e ↦ (w', returned e)
        | none ↦ (w', if nat_eq requeue 0 then done else requeue_after requeue)
      ]

  -- The destination was written: the restarts and the event.
  unfoldable pub written : ObjectKey → Bool → World r → World r
  written key do_restart w =
      if do_restart
      then event r "SecretRotated" (record w { restarts = key ∷ w.restarts })
      else event r "SecretSynced" w

  unfoldable pub apply : ObjectKey → Map String Bytes → ClientMeta → Decision → World r → Outcome
  apply key m c d w =
      let (cluster, left) = write_destination client gvk true (to_object d.object) m w.cluster in
      let w' = record w { cluster = cluster } in
      if d.do_sync
      then elim left [
        | some _ ↦ (event r "SecretSyncError" w', on_error)
        | none ↦ finish d.object c d.requeue (written key d.do_rollout_restart w')
      ]
      else finish d.object c d.requeue w

  unfoldable pub reconcile_data :
      ObjectKey → ClientMeta → StaticSecret → Map String Bytes → ℕ → World r → Outcome
  reconcile_data key c o m requeue w = elim (decide o m requeue w) [
    | err _ ↦ (w, on_error)
    | ok d ↦ apply key m c d w
  ]

  -- Both the response and its secret are dereferenced.
  unfoldable pub reconcile_response :
      ObjectKey
      → ClientMeta
      → StaticSecret
      → SecretTransformationOption
      → Option ApiSecret
      → Response
      → ℕ
      → World r
      → Outcome
  reconcile_response key c o opt none response requeue w = (w, panic)
  reconcile_response key c o opt (some s) response requeue w =
      elim (build (contents response) s.contents opt) [
        | err _ ↦ (event r "SecretDataBuilderError" w, on_error)
        | ok m ↦ reconcile_data key c o m requeue w
      ]

  unfoldable pub read_failed : ObjectKey → ClientMeta → Error → World r → Outcome
  read_failed key c e w =
      let (interval, back_offs) = BackOff.next_back_off fresh next (random 3) key w.back_offs in
      (
        event r "VaultClientError" (record w {
          vault = if is_forbidden_error e then factory.taint c w.vault else w.vault;
          back_offs = back_offs;
        }),
        next_attempt interval,
      )

  unfoldable pub read_secret :
      ObjectKey
      → ClientMeta
      → StaticSecret
      → SecretTransformationOption
      → ReadRequest
      → ℕ
      → World r
      → Outcome
  read_secret key c o opt request requeue w =
      let (v, answered) = factory.read c request w.vault in
      let w' = record w { vault = v; back_offs = (BackOff.delete fresh next key w.back_offs).0 } in
      elim answered [
        | err e ↦ read_failed key c e (record w { vault = v })
        | ok none ↦ (w', panic)
        | ok (some response) ↦ reconcile_response key c o opt (secret response) response requeue w'
      ]

  -- `requeueAfter` of the refresh period, 0 if there is none.
  unfoldable pub refresh : StaticSecret → Result Error ℕ
  refresh o =
      if o.spec.refresh_after == ""
      then ok 0
      else elim (parse_duration_string parse_duration o.spec.refresh_after 0) [
        | err e ↦ err e
        | ok d ↦ ok (compute_horizon_with_jitter d (random 0))
      ]

  unfoldable pub with_references : ObjectKey → StaticSecret → World r → World r
  with_references key o w = record w {
    references =
        References.set secret_transformation key
          (get_transformation_ref_obj_keys o.common.destination.transformation o.meta.key.namespace)
          w.references;
  }

  unfoldable pub transform_and_read : ObjectKey → ClientMeta → StaticSecret → ℕ → World r → Outcome
  transform_and_read key c o requeue w = elim (transformation_option (to_object o)) [
    | err _ ↦ (event r "TransformationError" w, on_error)
    | ok opt ↦ elim (new_kv_request o) [
      | err _ ↦ (event r "VaultStaticSecretError" w, on_error)
      | ok request ↦ read_secret key c o opt request requeue w
    ]
  ]

  unfoldable pub reconcile_live : ObjectKey → StaticSecret → World r → Outcome
  reconcile_live key o w =
      let (v, got) = factory.get_client (to_object o) w.vault in
      let w' = record w { vault = v } in
      elim got [
        | err _ ↦ (event r "VaultClientConfigError" w', on_error)
        | ok c ↦ elim (refresh o) [
          | err _ ↦ (event r "VaultStaticSecretError" w', on_error)
          | ok requeue ↦ transform_and_read key c o requeue (with_references key o w')
        ]
      ]

  -- handleDeletion
  unfoldable pub handle_deletion : StaticSecret → World r → World r × Option Error
  handle_deletion o w = remove_finalizer r o (
      un_watch_events r o (record w {
        references = (References.remove secret_transformation o.meta.key w.references).0;
        back_offs = (BackOff.delete fresh next o.meta.key w.back_offs).0;
      }))

  unfoldable pub reconcile : ObjectKey → World r → Outcome
  reconcile key w = elim (get_object r key w) [
    | err e ↦ (w, if is_not_found e then done else returned (api e))
    | ok o ↦
        let (w', left) = handle_deletion o w in
        if o.deleting
        then (elim left [ none ↦ (w', done) | some e ↦ (w', returned e) ])
        else reconcile_live key o w
  ]
