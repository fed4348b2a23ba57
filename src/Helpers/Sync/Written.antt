-- ===== src/Helpers/Sync/Written.antt =====
-- What a sync that returns no error has written at its destination.
use vault_secrets_operator.Base.{
  ◌≡◌, refl, sym, ap, inl, inr, ◌∙◌, String, Bool, true, Option, none, some, [], ◌∷◌, ◌==◌,
  text_key, Option-cases,
}
use vault_secrets_operator.Base.Map.{Map}
use vault_secrets_operator.Base.Result.{ok, Result-cases}
use vault_secrets_operator.Api.Names.{ObjectKey}
use vault_secrets_operator.Api.Secret.{Secret, Bytes}
use vault_secrets_operator.Api.Syncable.{Object, meta_of}
use vault_secrets_operator.Kube.Client.{Client, IsFaithful, SameContent}
use vault_secrets_operator.Common.Refs.{validate_object_key}
use vault_secrets_operator.Common.Metadata.{SyncableSecretMetaData, new_syncable_secret_meta_data}
use vault_secrets_operator.Helpers.Exists.{get_secret_exists}
use vault_secrets_operator.Helpers.Owner.{no_errors}
use vault_secrets_operator.Helpers.Sync.{
  owner_reference, destination_key, new_secret, secret_type, secret_labels, Outcome, sync_data,
  create_again, recreate, write_secret, desired, ownership_errors, sync_owned, sync_found, sync_to,
  sync_secret,
}
use vault_secrets_operator.Helpers.Sync.Frame.{found_key}
use vault_secrets_operator.Helpers.Sync.Dest.{Writes, written_last, written_after, written_either}

-- What the destination says of the Secret, where the operator creates it.
pub record IsSynced (obj : Object) (meta : SyncableSecretMetaData) (t : Secret) : Type 0 where
  pub type : t.type ≡ secret_type meta.destination
  pub labels : t.labels ≡ secret_labels obj meta.destination
  pub annotations : t.annotations ≡ meta.destination.annotations
  pub owner_references :
      t.owner_references ≡ owner_reference meta.api_version meta.kind (meta_of obj) ∷ []

module _ (k : Client) (gvk : Object → Option (String × String))
    (stored : ObjectKey → k.Cluster → Option Secret) (f : IsFaithful k stored) (obj : Object)
    (meta : SyncableSecretMetaData) (contents : Map String Bytes) (prune : Bool) where
  abbrev dest : ObjectKey
  dest = destination_key obj meta.destination

  abbrev HasContents : Secret → Type 0
  HasContents t = t.contents ≡ contents

  abbrev IsWritten : Secret → Type 0
  IsWritten t = (t.contents ≡ contents) × IsSynced obj meta t

  -- The object that a call wrote stands at the destination.
  update_dest :
      (s t : Secret) (c : k.Cluster)
      → s.key ≡ dest
      → (k.update s c).1 ≡ ok t
      → (stored dest (k.update s c).0 ≡ some t) × SameContent s t
  update_dest s t c q e =
      let (i, same) = f.update_ok s t c e in (ap (λ x. stored x (k.update s c).0) (sym q) ∙ i, same)

  create_dest :
      (s t : Secret) (c : k.Cluster)
      → s.key ≡ dest
      → (k.create s c).1 ≡ ok t
      → (stored dest (k.create s c).0 ≡ some t) × SameContent s t
  create_dest s t c q e =
      let (i, same) = f.create_ok s t c e in (ap (λ x. stored x (k.create s c).0) (sym q) ∙ i, same)

  sync_data_written :
      (found : Option Secret) (c : k.Cluster)
      → ((t : Secret) → found ≡ some t → t.key ≡ dest)
      → Writes k gvk stored f obj meta.destination HasContents
          (sync_data k gvk prune obj meta.destination contents found c)
  unfolding sync_data
  sync_data_written none c q = λ n. absurd (cc n)
  sync_data_written (some s) c q =
      written_last k gvk stored f obj meta.destination HasContents prune _
        λ t e. let (i, same) = update_dest _ t c (q s refl) e in (i, sym same.contents)

  -- The Secret to write and what the server made of it.
  same-IsWritten : (s t : Secret) → IsWritten s → SameContent s t → IsWritten t
  same-IsWritten s t (p, i) same = (
    sym same.contents ∙ p,
    record {
      type = sym same.type ∙ i.type;
      labels = sym same.labels ∙ i.labels;
      annotations = sym same.annotations ∙ i.annotations;
      owner_references = sym same.owner_references ∙ i.owner_references;
    },
  )

  again-IsWritten :
      (s t : Secret) (last : String)
      → IsWritten s
      → SameContent (record s { type = last; labels = [] }) t
      → IsWritten
          (record t { type = s.type; resource_version = ""; generation = 0; labels = s.labels })
  again-IsWritten s t last (p, i) same = (
    sym same.contents ∙ p,
    record {
      type = i.type;
      labels = i.labels;
      annotations = sym same.annotations ∙ i.annotations;
      owner_references = sym same.owner_references ∙ i.owner_references;
    },
  )

  create_again-IsWritten :
      (s t : Secret) (last : String) (c : k.Cluster)
      → s.key ≡ dest
      → IsWritten s
      → SameContent (record s { type = last; labels = [] }) t
      → Writes k gvk stored f obj meta.destination IsWritten
          (create_again k gvk prune obj meta.destination s t c)
  unfolding create_again
  create_again-IsWritten s t last c q w same = elim (Option-cases (k.delete t.key c).1) [
    | inr (x, e) ↦ rw (e, create_again) (λ n. absurd (cc n))
    | inl e ↦
        rw (e, create_again)
          (written_last k gvk stored f obj meta.destination IsWritten prune _ λ t' e'.
            let (i, same') = create_dest _ t' (k.delete t.key c).0 (sym same.key ∙ q) e' in
            (i, same-IsWritten _ t' (again-IsWritten s t last w same) same'))
  ]

  recreate-IsWritten :
      (s : Secret) (last : String) (c : k.Cluster)
      → s.key ≡ dest
      → IsWritten s
      → Writes k gvk stored f obj meta.destination IsWritten
          (recreate k gvk prune obj meta.destination s last c)
  unfolding recreate
  recreate-IsWritten s last c q w =
      let first = record s { type = last; labels = [] } in
      written_after k gvk stored f obj meta.destination IsWritten (k.update first c)
        (create_again k gvk prune obj meta.destination s)
        λ t e.
          create_again-IsWritten s t last (k.update first c).0 q w (update_dest first t c q e).1

  write_secret-IsWritten :
      (s : Secret) (found : Option Secret) (c : k.Cluster)
      → s.key ≡ dest
      → IsWritten s
      → Writes k gvk stored f obj meta.destination IsWritten
          (write_secret k gvk prune obj meta.destination s found c)
  unfolding write_secret
  write_secret-IsWritten s none c q w =
      written_last k gvk stored f obj meta.destination IsWritten prune _
        λ t e. let (i, same) = create_dest s t c q e in (i, same-IsWritten s t w same)
  write_secret-IsWritten s (some old) c q w =
      written_either k gvk stored f obj meta.destination IsWritten (s.type == old.type) _ _
        (λ _.
          written_last k gvk stored f obj meta.destination IsWritten prune (k.update s c)
            λ t e. let (i, same) = update_dest s t c q e in (i, same-IsWritten s t w same))
        (λ _. recreate-IsWritten s old.type c q w)

  desired_key :
      (found : Option Secret)
      → ((t : Secret) → found ≡ some t → t.key ≡ dest)
      → (desired k gvk obj meta contents found).key ≡ dest
  unfolding desired new_secret
  desired_key none q = refl
  desired_key (some t) q = q t refl

  desired-IsWritten : (found : Option Secret) → IsWritten (desired k gvk obj meta contents found)
  unfolding desired
  desired-IsWritten found =
      (refl, record { type = refl; labels = refl; annotations = refl; owner_references = refl })

  sync_owned-IsWritten :
      (found : Option Secret) (c : k.Cluster)
      → ((t : Secret) → found ≡ some t → t.key ≡ dest)
      → Writes k gvk stored f obj meta.destination IsWritten
          (sync_owned k gvk prune obj meta contents found c)
  unfolding sync_owned
  sync_owned-IsWritten found c q =
      written_either k gvk stored f obj meta.destination IsWritten
        (no_errors (
          ownership_errors k gvk meta.destination found
            (owner_reference meta.api_version meta.kind (meta_of obj) ∷ [])))
        _ _ (λ _. write_secret-IsWritten _ found c (desired_key found q) (desired-IsWritten found))
        (λ _ n. absurd (cc n))

  -- What a sync promises of its destination.
  abbrev pub IsDelivered : Secret → Type 0
  IsDelivered t = (t.contents ≡ contents) × (meta.destination.create ≡ true → IsSynced obj meta t)

  weaken :
      (P : Secret → Type 0) (o : Outcome k gvk)
      → ((t : Secret) → P t → IsDelivered t)
      → Writes k gvk stored f obj meta.destination P o
      → Writes k gvk stored f obj meta.destination IsDelivered o
  weaken P o g w n = let (t, i, p) = w n in (t, i, g t p)

  sync_found_written :
      (found : Option Secret) (c : k.Cluster)
      → ((t : Secret) → found ≡ some t → t.key ≡ dest)
      → Writes k gvk stored f obj meta.destination IsDelivered
          (sync_found k gvk prune obj meta contents found c)
  unfolding sync_found
  sync_found_written found c q =
      written_either k gvk stored f obj meta.destination IsDelivered meta.destination.create
        (sync_owned k gvk prune obj meta contents found c)
        (sync_data k gvk prune obj meta.destination contents found c)
        (λ _. weaken IsWritten _ (λ t w. (w.0, λ _. w.1)) (sync_owned-IsWritten found c q))
        (λ e.
          weaken HasContents _ (λ t w. (w, λ e'. absurd (cc (e, e'))))
            (sync_data_written found c q))

  sync_to_written :
      (c : k.Cluster)
      → Writes k gvk stored f obj meta.destination IsDelivered
          (sync_to k gvk prune obj meta contents c)
  unfolding sync_to
  sync_to_written c = elim (Option-cases (validate_object_key dest)) [
    | inr (x, e) ↦ rw (e, sync_to) (λ n. absurd (cc n))
    | inl e ↦ elim (Result-cases (get_secret_exists k dest c)) [
      | inl (x, g) ↦ rw (e, sync_to) (rw g (λ n. absurd (cc n)))
      | inr (found, g) ↦
          rw (e, sync_to)
            (rw g
              (sync_found_written found c (λ t p. found_key k gvk stored f dest c t (g ∙ ap ok p))))
    ]
  ]

  sync_secret-eq-sync_to :
      (c : k.Cluster)
      → new_syncable_secret_meta_data obj ≡ ok meta
      → sync_secret k gvk prune obj contents c ≡ sync_to k gvk prune obj meta contents c
  unfolding sync_secret
  sync_secret-eq-sync_to c m = rw (m, sync_secret)

  -- If a sync returns no error, a Secret with exactly the given data stands at the destination; and
  -- where the resource sets `create`, that Secret has the destination's type, annotations, labels
  -- with the owner labels over them, and the resource as its only owner.
  pub sync_secret_delivers :
      (c : k.Cluster)
      → new_syncable_secret_meta_data obj ≡ ok meta
      → (sync_secret k gvk prune obj contents c).1 ≡ none
      → (t : Secret) × (stored dest (sync_secret k gvk prune obj contents c).0 ≡ some t)
        × (t.contents ≡ contents)
        × (meta.destination.create ≡ true → IsSynced obj meta t)
  sync_secret_delivers c m n =
      let e = sync_secret-eq-sync_to c m in
      let (t, i, p) = sync_to_written c (ap (λ (o : Outcome k gvk). o.1) (sym e) ∙ n) in
      (t, ap (λ (o : Outcome k gvk). stored dest o.0) e ∙ i, p.0, p.1)
