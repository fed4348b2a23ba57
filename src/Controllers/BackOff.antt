-- ===== src/Controllers/BackOff.antt =====
-- controllers/registry.go: BackOffRegistry, the retry state of the objects whose sync failed.
mod Examples
use vault_secrets_operator.Base.{
  ℕ, zero, suc, ◌≡◌, refl, ap, ◌∙◌, inl, inr, Bool-cases, Bool, true, false, Option, none, some,
  List, [], ◌∷◌, arith, Key, ◌==◌, if◌then◌else◌,
}
use vault_secrets_operator.Base.Map
use vault_secrets_operator.Base.Map.{Map, get-put, get-delete}
use vault_secrets_operator.Api.Names.{ObjectKey, object_key}

-- What a reconciler reports of an object, with the draw of a failure.
pub data Outcome : Type 0 where
  failed : ObjectKey → ℕ → Outcome
  synced : ObjectKey → Outcome

-- The draws of the object's failures since it was last synced, the latest first.
pub failures : ObjectKey → List Outcome → List ℕ
failures k [] = []
failures k (failed j draw ∷ os) = let rest = failures k os in if j == k then draw ∷ rest else rest
failures k (synced j ∷ os) = let rest = failures k os in if j == k then [] else rest

-- The backoff library: `fresh` is NewExponentialBackOff with the registry's options after
-- `Reset`, and `next` is NextBackOff, an interval, or none for backoff.Stop, with the state after
-- it. A draw stands for what differs from call to call: the random number, and the time since the
-- entry was made.
module _ {BackOff : Type 0} (fresh : BackOff) (next : ℕ → BackOff → Option ℕ × BackOff) where
  abbrev Registry : Type 0
  Registry = Map ObjectKey BackOff

  unfoldable pub get : ObjectKey → Registry → BackOff × Bool × Registry
  get k m = elim (Map.get k m) [
    | some entry ↦ (entry, false, m)
    | none ↦ (fresh, true, Map.put k fresh m)
  ]

  unfoldable pub delete : ObjectKey → Registry → Registry × Bool
  delete k m = (Map.delete k m, Map.has k m)

  -- The entry is a pointer: its next interval changes the state that the registry holds.
  unfoldable pub next_back_off : ℕ → ObjectKey → Registry → Option ℕ × Registry
  next_back_off draw k m =
      let (entry, _, m1) = get k m in
      let (interval, entry') = next draw entry in (interval, Map.put k entry' m1)

  -- The registry after the outcomes, the latest first.
  pub history : List Outcome → Registry
  history [] = []
  history (failed k draw ∷ os) = (next_back_off draw k (history os)).1
  history (synced k ∷ os) = (delete k (history os)).0

  -- The state of an entry after these draws.
  pub after : List ℕ → BackOff
  after [] = fresh
  after (draw ∷ draws) = (next draw (after draws)).1

  get-next_back_off :
      (draw : ℕ) (j k : ObjectKey) (m : Registry)
      → (get k (next_back_off draw j m).1).0
        ≡ (if j == k then (next draw (get j m).0).1 else (get k m).0)
  unfolding get next_back_off
  get-next_back_off draw j k m =
      let old = get j m in
      ground
        (arith, get-put j k (next draw old.0).1 old.2, get-put j k fresh m, object_key.same_iff j k)

  get-delete_entry :
      (j k : ObjectKey) (m : Registry)
      → (get k (delete j m).0).0 ≡ (if j == k then fresh else (get k m).0)
  unfolding get delete
  get-delete_entry j k m = ground (arith, get-delete j k m)

  get-history : (k : ObjectKey) (os : List Outcome) → (get k (history os)).0 ≡ after (failures k os)
  unfolding history failures after
  get-history k [] = unfold get Map.get in refl
  get-history k (failed j draw ∷ os) = elim (Bool-cases (j == k)) [
    | inl same ↦
        rw (get-next_back_off draw j k (history os), same)
          (ap (λ e. (next draw e).1)
            (ap (λ i. (get i (history os)).0) ((object_key.same_iff j k).0 same)
              ∙ get-history k os))
    | inr other ↦ rw (get-next_back_off draw j k (history os), other) (get-history k os)
  ]
  get-history k (synced j ∷ os) = elim (Bool-cases (j == k)) [
    | inl same ↦ rw (get-delete_entry j k (history os), same)
    | inr other ↦ rw (get-delete_entry j k (history os), other) (get-history k os)
  ]

  -- The interval, or backoff.Stop, that an object is given when its sync fails is the one that the
  -- library gives, for the same draw, to an entry that is as old as the object's failures since it
  -- was last synced: what befell other objects has no part in it, a failure moves on, and a sync
  -- starts afresh.
  pub next_back_off-history :
      (draw : ℕ) (k : ObjectKey) (os : List Outcome)
      → (next_back_off draw k (history os)).0 ≡ (next draw (after (failures k os))).0
  unfolding next_back_off
  next_back_off-history draw k os = ap (λ e. (next draw e).0) (get-history k os)
