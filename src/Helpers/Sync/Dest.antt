-- ===== src/Helpers/Sync/Dest.antt =====
-- Rules for what stands at the destination of a sync once it has returned no error.
use vault_secrets_operator.Base.{
  ◌≡◌, ◌≢◌, refl, ap, inl, inr, ◌∙◌, String, Bool, true, false, Option, none, some, List, [], ◌∷◌,
  ◌==◌, text_key, ==_refl, if◌then◌else◌, Bool-cases,
}
use vault_secrets_operator.Base.Result.{Result, ok, err, Result-cases}
use vault_secrets_operator.Api.Names.{ObjectKey}
use vault_secrets_operator.Api.Secret.{Secret, ApiError}
use vault_secrets_operator.Api.Destination.{Destination}
use vault_secrets_operator.Api.Syncable.{Object}
use vault_secrets_operator.Kube.Client.{Client, IsFaithful}
use vault_secrets_operator.Helpers.Sync.{
  destination_key, Outcome, after, find_secrets_owned_by_obj, delete_orphan, delete_orphans,
  prune_orphan_secrets, finish,
}

module _ (k : Client) (gvk : Object → Option (String × String))
    (stored : ObjectKey → k.Cluster → Option Secret) (f : IsFaithful k stored) (obj : Object)
    (d : Destination) where
  -- Pruning skips the destination.
  pub delete_orphan_dest :
      (t : Secret) (c : k.Cluster)
      → stored (destination_key obj d) (delete_orphan k gvk d.name t c).0
        ≡ stored (destination_key obj d) c
  unfolding delete_orphan
  delete_orphan_dest t c = elim (Bool-cases (t.key.name == d.name)) [
    | inl e ↦ rw e
    | inr e ↦ rw e (f.delete_frame t.key _ c (λ q. other e q))
  ]
    where
      other : (t.key.name == d.name) ≡ false → t.key ≢ destination_key obj d
      other e q = cc (e, ap (λ (x : ObjectKey). x.name == d.name) q, ==_refl d.name)

  pub delete_orphans_dest :
      (ss : List Secret) (c : k.Cluster)
      → stored (destination_key obj d) (delete_orphans k gvk d.name ss c).0
        ≡ stored (destination_key obj d) c
  unfolding delete_orphans
  delete_orphans_dest [] c = refl
  delete_orphans_dest (t ∷ ss) c =
      delete_orphans_dest ss (delete_orphan k gvk d.name t c).0 ∙ delete_orphan_dest t c

  pub finish_dest :
      (prune : Bool) (c : k.Cluster)
      → stored (destination_key obj d) (finish k gvk prune obj d c).0
        ≡ stored (destination_key obj d) c
  unfolding finish prune_orphan_secrets
  finish_dest false c = refl
  finish_dest true c = elim (Result-cases (find_secrets_owned_by_obj k gvk obj c)) [
    | inl (x, e) ↦ rw (e, prune_orphan_secrets)
    | inr (ss, e) ↦ rw (e, prune_orphan_secrets) (delete_orphans_dest ss c)
  ]

  module _ (P : Secret → Type 0) where
    -- If there is no error, what is stored at the destination satisfies the predicate.
    abbrev pub Writes : Outcome k gvk → Type 0
    Writes o = o.1 ≡ none → (t : Secret) × (stored (destination_key obj d) o.0 ≡ some t) × P t

    -- The last call of the API decides; pruning follows.
    pub written_last :
        (prune : Bool) (r : k.Cluster × Result ApiError Secret)
        → ((t : Secret) → r.1 ≡ ok t → (stored (destination_key obj d) r.0 ≡ some t) × P t)
        → Writes (after k gvk r (λ _. finish k gvk prune obj d))
    written_last prune (c, err e) h n = absurd (cc n)
    written_last prune (c, ok t) h n = let (i, p) = h t refl in (t, finish_dest prune c ∙ i, p)

    pub written_after :
        (r : k.Cluster × Result ApiError Secret) (g : Secret → k.Cluster → Outcome k gvk)
        → ((t : Secret) → r.1 ≡ ok t → Writes (g t r.0))
        → Writes (after k gvk r g)
    written_after (c, err e) g h n = absurd (cc n)
    written_after (c, ok t) g h n = h t refl n

    pub written_either :
        (b : Bool) (x y : Outcome k gvk)
        → (b ≡ true → Writes x)
        → (b ≡ false → Writes y)
        → Writes (if b then x else y)
    written_either true x y h i = h refl
    written_either false x y h i = i refl
