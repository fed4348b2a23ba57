-- ===== src/Helpers/Sync/Frame.antt =====
-- What a sync leaves alone: every Secret but its destination and the Secrets that the object owns.
use vault_secrets_operator.Base.{
  ◌≡◌, ◌≢◌, refl, sym, ap, ◌∙◌, String, Bool, true, false, Option, none, some, List, [], ◌∷◌, inl,
  inr, arith, ◌==◌, text_key, if◌then◌else◌, select, All, Bool-cases, Option-cases,
}
use vault_secrets_operator.Base.Map.{Map}
use vault_secrets_operator.Base.Result.{Result, ok, err, Result-cases}
use vault_secrets_operator.Api.Names.{ObjectKey}
use vault_secrets_operator.Api.Secret.{Secret, ApiError, Bytes}
use vault_secrets_operator.Api.Destination.{Destination}
use vault_secrets_operator.Api.Syncable.{Object, meta_of}
use vault_secrets_operator.Kube.Client.{Client, IsFaithful}
use vault_secrets_operator.Common.Refs.{validate_object_key}
use vault_secrets_operator.Common.Metadata.{SyncableSecretMetaData, new_syncable_secret_meta_data}
use vault_secrets_operator.Helpers.Exists.{get_secret_exists}
use vault_secrets_operator.Helpers.Owner.{is_owned, matching_labels_for_obj}
use vault_secrets_operator.Helpers.Sync.{
  owner_reference, destination_key, new_secret, Outcome, after, owned_among,
  find_secrets_owned_by_obj, delete_orphan, delete_orphans, prune_orphan_secrets, finish, sync_data,
  create_again, recreate, write_secret, desired, sync_owned, sync_found, sync_to, sync_secret,
}

All-select {ℓ κ} :
    {A : Type ℓ} (P : A → Type κ) (p : A → Bool) (xs : List A)
    → All P xs
    → All (λ x. P x × (p x ≡ true)) (select p xs)
unfolding select
All-select P p [] h = tt
All-select P p (x ∷ xs) (h, hs) = elim (Bool-cases (p x)) [
  | inl e ↦ rw e ((h, e), All-select P p xs hs)
  | inr e ↦ rw e (All-select P p xs hs)
]

All-map {ℓ κ μ} :
    {A : Type ℓ} (P : A → Type κ) (Q : A → Type μ)
    → ((x : A) → P x → Q x)
    → (xs : List A) → All P xs
    → All Q xs
All-map P Q f [] h = tt
All-map P Q f (x ∷ xs) (h, hs) = (f x h, All-map P Q f xs hs)

-- The Secret is owned by the object, as FindSecretsOwnedByObj sees it.
abbrev pub is_prunable : (Object → Option (String × String)) → Object → Secret → Bool
is_prunable gvk obj s = elim (gvk obj) [
  | none ↦ false
  | some (api_version, kind) ↦ is_owned s (owner_reference api_version kind (meta_of obj) ∷ [])
]

-- What is found under a key has that key.
pub found_key :
    (k : Client) (gvk : Object → Option (String × String))
    (stored : ObjectKey → k.Cluster → Option Secret)
    → IsFaithful k stored
    → (key : ObjectKey) (c : k.Cluster) (t : Secret) → get_secret_exists k key c ≡ ok (some t)
    → t.key ≡ key
unfolding get_secret_exists
found_key k gvk stored f key c t e = ground (arith, f.get_ok key c t)

module _ (k : Client) (gvk : Object → Option (String × String))
    (stored : ObjectKey → k.Cluster → Option Secret) (f : IsFaithful k stored) (obj : Object)
    (key : ObjectKey) (s : Secret) where
  delete_orphan_frame :
      (name : String) (t : Secret) (c : k.Cluster)
      → t.key ≢ key
      → stored key (delete_orphan k gvk name t c).0 ≡ stored key c
  unfolding delete_orphan
  delete_orphan_frame name t c n = elim (Bool-cases (t.key.name == name)) [
    | inl e ↦ rw e
    | inr e ↦ rw e (f.delete_frame t.key key c n)
  ]

  delete_orphans_frame :
      (name : String) (ss : List Secret) (c : k.Cluster)
      → All (λ t. t.key ≢ key) ss
      → stored key (delete_orphans k gvk name ss c).0 ≡ stored key c
  unfolding delete_orphans
  delete_orphans_frame name [] c h = refl
  delete_orphans_frame name (t ∷ ss) c (n, h) =
      delete_orphans_frame name ss (delete_orphan k gvk name t c).0 h
      ∙ delete_orphan_frame name t c n

  module _ (not_ours : is_prunable gvk obj s ≡ false) where
    owned_elsewhere :
        (c : k.Cluster) (t : Secret)
        → stored key c ≡ some s
        → stored t.key c ≡ some t
        → is_prunable gvk obj t ≡ true
        → t.key ≢ key
    owned_elsewhere c t h i owned e = ground (arith, ap (λ q. stored q c) e)

    owned_among_elsewhere :
        (c : k.Cluster) (v kd : String) (ss : List Secret)
        → stored key c ≡ some s
        → gvk obj ≡ some (v, kd)
        → All (λ t. (stored t.key c ≡ some t) × (t.key.namespace ≡ (meta_of obj).key.namespace)) ss
        → All (λ t. t.key ≢ key) (owned_among k gvk ss (owner_reference v kd (meta_of obj)))
    unfolding owned_among
    owned_among_elsewhere c v kd ss h g all =
        All-map _ _ (λ t p. owned_elsewhere c t h p.0.0 (rw (g, is_prunable) p.1))
          (select (λ t. is_owned t (owner_reference v kd (meta_of obj) ∷ [])) ss)
          (All-select _ _ ss all)

    prune_frame :
        (d : Destination) (c : k.Cluster)
        → stored key c ≡ some s
        → stored key (prune_orphan_secrets k gvk obj d c) ≡ some s
    unfolding prune_orphan_secrets
    prune_frame d c h = elim (Option-cases (gvk obj)) [
      | inl e ↦ rw (e, prune_orphan_secrets, find_secrets_owned_by_obj) h
      | inr ((v, kd), e) ↦ elim (Result-cases (matching_labels_for_obj (meta_of obj))) [
        | inl (x, m) ↦ rw (e, prune_orphan_secrets, find_secrets_owned_by_obj) (rw m h)
        | inr (labels, m) ↦ elim (Result-cases (k.list (meta_of obj).key.namespace labels c)) [
          | inl (x, l) ↦ rw (e, prune_orphan_secrets, find_secrets_owned_by_obj) (rw m (rw l h))
          | inr (ss, l) ↦
              rw (e, prune_orphan_secrets, find_secrets_owned_by_obj)
                (rw m (
                  rw l (
                    delete_orphans_frame d.name _ c
                      (owned_among_elsewhere c v kd ss h e (f.list_ok _ _ c ss l))
                    ∙ h)))
        ]
      ]
    ]

    finish_frame :
        (prune : Bool) (d : Destination) (c : k.Cluster)
        → stored key c ≡ some s
        → stored key (finish k gvk prune obj d c).0 ≡ some s
    unfolding finish
    finish_frame true d c h = prune_frame d c h
    finish_frame false d c h = h

    either :
        (b : Bool) (x y : Outcome k gvk)
        → stored key x.0 ≡ some s
        → stored key y.0 ≡ some s
        → stored key (if b then x else y).0 ≡ some s
    either true x y h i = h
    either false x y h i = i

    -- A call of the API that touches another key, and what follows it.
    after_frame :
        (r : k.Cluster × Result ApiError Secret) (g : Secret → k.Cluster → Outcome k gvk)
        → stored key r.0 ≡ some s
        → ((t : Secret) (c : k.Cluster)
            → r.1 ≡ ok t
            → stored key c ≡ some s
            → stored key (g t c).0 ≡ some s)
        → stored key (after k gvk r g).0 ≡ some s
    after_frame (c, err e) g h n = h
    after_frame (c, ok t) g h n = n t c refl h

    sync_data_frame :
        (prune : Bool) (d : Destination) (contents : Map String Bytes) (found : Option Secret)
        (c : k.Cluster)
        → ((t : Secret) → found ≡ some t → t.key ≢ key)
        → stored key c ≡ some s
        → stored key (sync_data k gvk prune obj d contents found c).0 ≡ some s
    unfolding sync_data
    sync_data_frame prune d contents none c n h = h
    sync_data_frame prune d contents (some t) c n h =
        after_frame _ _ (f.update_frame _ key c (n t refl) ∙ h)
          (λ _ c' _ h'. finish_frame prune d c' h')

    create_again_frame :
        (prune : Bool) (d : Destination) (dest t : Secret) (c : k.Cluster)
        → t.key ≢ key
        → stored key c ≡ some s
        → stored key (create_again k gvk prune obj d dest t c).0 ≡ some s
    unfolding create_again
    create_again_frame prune d dest t c n h =
        let gone = f.delete_frame t.key key c n ∙ h in
        elim (Option-cases (k.delete t.key c).1) [
          | inl e ↦
              rw (e, create_again)
                (after_frame _ _ (f.create_frame _ key _ n ∙ gone)
                  (λ _ c' _ h'. finish_frame prune d c' h'))
          | inr (x, e) ↦ rw (e, create_again) gone
        ]

    recreate_frame :
        (prune : Bool) (d : Destination) (t : Secret) (last : String) (c : k.Cluster)
        → t.key ≢ key
        → stored key c ≡ some s
        → stored key (recreate k gvk prune obj d t last c).0 ≡ some s
    unfolding recreate
    recreate_frame prune d t last c n h =
        after_frame _ _ (f.update_frame _ key c n ∙ h) λ t' c' e h'.
          create_again_frame prune d t t' c' (λ q. n ((f.update_ok _ t' c e).1.key ∙ q)) h'

    write_secret_frame :
        (prune : Bool) (d : Destination) (t : Secret) (found : Option Secret) (c : k.Cluster)
        → t.key ≢ key
        → stored key c ≡ some s
        → stored key (write_secret k gvk prune obj d t found c).0 ≡ some s
    unfolding write_secret
    write_secret_frame prune d t none c n h =
        after_frame _ _ (f.create_frame t key c n ∙ h) (λ _ c' _ h'. finish_frame prune d c' h')
    write_secret_frame prune d t (some old) c n h = elim (Bool-cases (t.type == old.type)) [
      | inl e ↦
          rw e (
            after_frame _ _ (f.update_frame t key c n ∙ h)
              (λ _ c' _ h'. finish_frame prune d c' h'))
      | inr e ↦ rw e (recreate_frame prune d t old.type c n h)
    ]

    module _ (prune : Bool) (meta : SyncableSecretMetaData) (contents : Map String Bytes)
        (c : k.Cluster) (elsewhere : destination_key obj meta.destination ≢ key)
        (h : stored key c ≡ some s) where
      desired_elsewhere :
          (found : Option Secret)
          → ((t : Secret) → found ≡ some t → t.key ≢ key)
          → (desired k gvk obj meta contents found).key ≢ key
      unfolding desired new_secret
      desired_elsewhere none n = elsewhere
      desired_elsewhere (some t) n = n t refl

      sync_found_frame :
          (found : Option Secret)
          → ((t : Secret) → found ≡ some t → t.key ≢ key)
          → stored key (sync_found k gvk prune obj meta contents found c).0 ≡ some s
      unfolding sync_found sync_owned
      sync_found_frame found n =
          either meta.destination.create _ _
            (either _ _ _
              (write_secret_frame prune meta.destination _ found c (desired_elsewhere found n) h) h)
            (sync_data_frame prune meta.destination contents found c n h)

      found_elsewhere :
          (found : Option Secret)
          → get_secret_exists k (destination_key obj meta.destination) c ≡ ok found
          → (t : Secret) → found ≡ some t
          → t.key ≢ key
      found_elsewhere found e t p q =
          elsewhere (sym (found_key k gvk stored f _ c t (e ∙ ap ok p)) ∙ q)

      sync_to_frame : stored key (sync_to k gvk prune obj meta contents c).0 ≡ some s
      unfolding sync_to
      sync_to_frame =
          elim (Option-cases (validate_object_key (destination_key obj meta.destination))) [
            | inr (x, e) ↦ rw (e, sync_to) h
            | inl e ↦
                elim (Result-cases (get_secret_exists k (destination_key obj meta.destination) c)) [
                  | inl (x, g) ↦ rw (e, sync_to) (rw g h)
                  | inr (found, g) ↦
                      rw (e, sync_to) (rw g (sync_found_frame found (found_elsewhere found g)))
                ]
          ]

  -- A sync leaves every Secret alone but its destination and the Secrets that the object owns: what
  -- is stored under another key and does not bear the owner labels with the object's owner
  -- reference is stored there unchanged afterwards, whatever calls of the API fail on the way.
  pub sync_secret_frame :
      (prune : Bool) (contents : Map String Bytes) (c : k.Cluster) (meta : SyncableSecretMetaData)
      → is_prunable gvk obj s ≡ false
      → new_syncable_secret_meta_data obj ≡ ok meta
      → destination_key obj meta.destination ≢ key
      → stored key c ≡ some s
      → stored key (sync_secret k gvk prune obj contents c).0 ≡ some s
  unfolding sync_secret
  sync_secret_frame prune contents c meta not_ours m elsewhere h =
      rw (m, sync_secret) (sync_to_frame not_ours prune meta contents c elsewhere h)
