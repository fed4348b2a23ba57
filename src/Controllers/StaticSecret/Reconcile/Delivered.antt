-- ===== src/Controllers/StaticSecret/Reconcile/Delivered.antt =====
-- What stands at the destination when a VaultStaticSecret's status is written.
use mathlib.Core.Path.{subst}
use vault_secrets_operator.Base.{
  ℕ, ◌≡◌, refl, inl, inr, String, Bool, true, false, none, arith, Bool-cases, Option-cases,
  text_key,
}
use vault_secrets_operator.Base.Map.{Map}
use vault_secrets_operator.Base.Result.{ok, Result-cases}
use vault_secrets_operator.Api.Names.{ObjectKey}
use vault_secrets_operator.Api.Secret.{Bytes}
use vault_secrets_operator.Api.DynamicSecret.{ClientMeta}
use vault_secrets_operator.Api.StaticSecret.{StaticSecret, to_object}
use vault_secrets_operator.Helpers.Hmac.{new_hmac_validator, handle_secret_hmac}
use vault_secrets_operator.Helpers.Hmac.Drift.{IsInSync, handle_secret_hmac_iff}
use vault_secrets_operator.Helpers.Sync.{sync_secret as write_destination}
use vault_secrets_operator.Controllers.Reconciler.{Reconciler}
use vault_secrets_operator.Controllers.StaticSecret.{World, event}
use vault_secrets_operator.Controllers.StaticSecret.Watcher.{Outside}
use vault_secrets_operator.Controllers.StaticSecret.Reconcile.{
  Reply, Decision, is_set, on_error, decide, apply, reconcile_data, finish, written,
}

module _ (r : Reconciler) (out : Outside r) (hmac_key : ObjectKey)
    (keyed : r.validator ≡ new_hmac_validator r.client r.hash hmac_key) where
  open r use {client, hash, encode, decode, gvk}

  -- The write is left out: the resource is as it was when it was last synced, and the data, the
  -- status and the destination have one MAC.
  pub record IsUnchanged (o : StaticSecret) (m : Map String Bytes) (w : World r) : Type 0 where
    pub checked : is_set o.spec.hmac_secret_data ≡ true
    pub generation : o.last_generation ≡ o.meta.generation
    pub mac : Bytes
    pub in_sync : IsInSync client hash hmac_key encode decode (to_object o) m w.cluster mac

  unchanged :
      (o : StaticSecret) (m : Map String Bytes) (w : World r) (mac : Bytes)
      → is_set o.spec.hmac_secret_data ≡ true
      → o.last_generation ≡ o.meta.generation
      → handle_secret_hmac client hash encode decode r.validator (to_object o) m w.cluster
        ≡ ok (true, mac)
      → IsUnchanged o m w
  unchanged o m w mac checked same e = record {
    checked = checked;
    generation = same;
    mac = mac;
    in_sync =
        (handle_secret_hmac_iff client hash hmac_key encode decode (to_object o) m w.cluster mac).0
          (subst
            (λ v.
              handle_secret_hmac client hash encode decode v (to_object o) m w.cluster
              ≡ ok (true, mac))
            keyed e);
  }

  -- The decision, with the outcome of the comparison of the MACs.
  decide-IsUnchanged :
      (o : StaticSecret) (m : Map String Bytes) (requeue : ℕ) (w : World r) (d : Decision)
      → decide r out o m requeue w ≡ ok d
      → d.do_sync ≡ false
      → IsUnchanged o m w
  unfolding decide
  decide-IsUnchanged o m requeue w d e skip = elim (Bool-cases (is_set o.spec.hmac_secret_data)) [
    | inr unset ↦ absurd (ground arith)
    | inl set ↦
        elim (Result-cases
          (handle_secret_hmac client hash encode decode r.validator (to_object o) m w.cluster)) [
            | inl (x, h) ↦ absurd (ground arith)
            | inr ((false, mac), h) ↦ absurd (ground arith)
            | inr ((true, mac), h) ↦ unchanged o m w mac set (ground arith) h
          ]
  ]

  cluster-written :
      (key : ObjectKey) (do_restart : Bool) (w : World r)
      → (written r out key do_restart w).cluster ≡ w.cluster
  unfolding written event
  cluster-written key do_restart w = ground arith

  -- How a reconciliation ends that has the data: an error before the status, which leaves the
  -- resources as they were; or the status is written, after the destination or with it unchanged.
  pub data Ending (key : ObjectKey) (c : ClientMeta) (o : StaticSecret) (m : Map String Bytes)
      (w : World r) : World r × Reply → Type 0 where
    not_synced : (w' : World r) → w'.objects ≡ w.objects → Ending key c o m w (w', on_error r out)
    wrote :
        (d : Decision) (w' : World r)
        → (write_destination client gvk true (to_object d.object) m w.cluster).1 ≡ none
        → w'.cluster ≡ (write_destination client gvk true (to_object d.object) m w.cluster).0
        → Ending key c o m w (finish r out d.object c d.requeue w')
    left :
        (d : Decision)
        → IsUnchanged o m w
        → Ending key c o m w (finish r out d.object c d.requeue w)

  -- A reconciliation of a VaultStaticSecret that has the data writes the status only if SyncSecret
  -- wrote the data without an error, or nothing has changed: the resource has the generation of the
  -- last sync, and the data, the status and the destination Secret have the same MAC. Otherwise it
  -- changes no resource and is made again after a short wait.
  pub reconcile_data-Ending :
      (key : ObjectKey) (c : ClientMeta) (o : StaticSecret) (m : Map String Bytes) (requeue : ℕ)
      (w : World r)
      → Ending key c o m w (reconcile_data r out key c o m requeue w)
  unfolding reconcile_data apply event
  reconcile_data-Ending key c o m requeue w =
      let at = λ (x : World r × Reply) (same : x ≡ reconcile_data r out key c o m requeue w).
        subst (Ending key c o m w) same in
      elim (Result-cases (decide r out o m requeue w)) [
        | inl (x, e) ↦ at (w, on_error r out) (ground arith) (not_synced w refl)
        | inr (d, e) ↦ elim (Bool-cases d.do_sync) [
          | inr skip ↦
              at (finish r out d.object c d.requeue w) (ground arith)
                (left d (decide-IsUnchanged o m requeue w d e skip))
          | inl write ↦
              let (cluster, failed) =
                write_destination client gvk true (to_object d.object) m w.cluster in
              let w' = record w { cluster = cluster } in
              elim (Option-cases failed) [
                | inr (x, f) ↦
                    at (event r "SecretSyncError" w', on_error r out) (ground arith)
                      (not_synced (event r "SecretSyncError" w') refl)
                | inl f ↦
                    let w2 = written r out key d.do_rollout_restart w' in
                    at (finish r out d.object c d.requeue w2) (ground arith)
                      (wrote d w2 f (cluster-written key d.do_rollout_restart w'))
              ]
        ]
      ]
