-- ===== src/Vault/Cache/Pruned.antt =====
-- What the operations of the client cache leave in the two caches.
use vault_secrets_operator.Base.{
  ◌≡◌, refl, String, Option-cases, inl, inr, ==_refl, Bool-cases, Bool, true, false, not, ◌&&◌,
  none, some, List, [], ◌∷◌, arith, text_key, eq_iff, ◌==◌, if◌then◌else◌, is_some, contains,
}
use vault_secrets_operator.Vault.Lru.{Lru, IsLru}
use vault_secrets_operator.Vault.CacheKey.Clone.{has_prefix}
use vault_secrets_operator.Vault.Cache.{
  Client, ClientCache, prune_key, prune_keys, prune_clones, on_evict, get, evict, add_client,
  remove_client, remove_key, prune_from, purge_from,
}

module _ (l : Lru String Client) (laws : IsLru l) where
  -- Whether there is a client, or a clone, under a key.
  abbrev pub has_client : String → ClientCache l → Bool
  has_client k s = is_some (l.peek k s.cache)

  abbrev pub has_clone : String → ClientCache l → Bool
  has_clone k s = is_some (l.peek k s.clone_cache)

  peek-prune_key :
      (j key k : String) (c : l.Cache)
      → is_some (l.peek j (prune_key l key k c))
        ≡ (is_some (l.peek j c) && not (has_prefix j key && k == j))
  unfolding prune_key
  peek-prune_key j key k c = elim (Bool-cases (k == j)) [
    | inl same ↦ rw ((eq_iff k j).0 same) (ground (arith, laws.peek_remove j j c, ==_refl j))
    | inr other ↦ ground (arith, laws.peek_remove j k c, other)
  ]

  peek-prune_keys :
      (j key : String) (ks : List String) (c : l.Cache)
      → is_some (l.peek j (prune_keys l key ks c))
        ≡ (is_some (l.peek j c) && not (has_prefix j key && contains j ks))
  unfolding prune_keys contains
  peek-prune_keys j key [] c = ground arith
  peek-prune_keys j key (k ∷ ks) c =
      ground (arith, peek-prune_keys j key ks (prune_key l key k c), peek-prune_key j key k c)

  pub has_clone-prune_clones :
      (j key : String) (s : ClientCache l)
      → has_clone j (prune_clones l key s) ≡ (has_clone j s && not (has_prefix j key))
  unfolding prune_clones
  has_clone-prune_clones j key s = ground (
    arith,
    peek-prune_keys j key (l.keys s.clone_cache) s.clone_cache,
    laws.contains_keys j s.clone_cache,
  )

  cache-prune_clones : (key : String) (s : ClientCache l) → (prune_clones l key s).cache ≡ s.cache
  unfolding prune_clones
  cache-prune_clones key s = refl

  -- A clone that is left was there, and every key before it that had a client has one.
  pub record Shrinks (s s' : ClientCache l) : Type 0 where
    pub clone_was : (j : String) → has_clone j s' ≡ true → has_clone j s ≡ true
    pub client_stays :
        (j i : String)
        → has_clone j s' ≡ true
        → has_prefix j i ≡ true
        → has_client i s ≡ true
        → has_client i s' ≡ true

  pub same-Shrinks : (s : ClientCache l) → Shrinks s s
  same-Shrinks s = record { clone_was = λ j h. h; client_stays = λ j i h p c. c }

  pub Shrinks-trans : (s t u : ClientCache l) → Shrinks s t → Shrinks t u → Shrinks s u
  Shrinks-trans s t u a b = record {
    clone_was = λ j h. a.clone_was j (b.clone_was j h);
    client_stays = λ j i h p c. b.client_stays j i h p (a.client_stays j i (b.clone_was j h) p c);
  }

  if-Shrinks : (b : Bool) (s t : ClientCache l) → Shrinks s t → Shrinks s (if b then t else s)
  if-Shrinks true s t h = h
  if-Shrinks false s t h = same-Shrinks s

  pub get-Shrinks : (k : String) (s : ClientCache l) → Shrinks s (get l k s).0
  unfolding get
  get-Shrinks k s = record {
    clone_was = λ j h. ground (arith, laws.peek_get j k s.clone_cache);
    client_stays = λ j i h p c. ground (arith, laws.peek_get i k s.cache);
  }

  pub has_clone-remove_client :
      (j k : String) (s : ClientCache l)
      → has_clone j (remove_client l k s).0 ≡ (has_clone j s && not (has_prefix j k))
  unfolding remove_client on_evict
  has_clone-remove_client j k s =
      let s1 = prune_clones l k s in
      let s2 = record s1 { cache = (l.remove k s1.cache).0 } in
      elim (Option-cases (l.remove k s1.cache).1) [
        | inl e ↦ ground (arith, has_clone-prune_clones j k s)
        | inr (client, e) ↦ ground (
          arith,
          has_clone-prune_clones j k s,
          has_clone-prune_clones j k (record s2 { evicted = (k, client) ∷ s2.evicted }),
        )
      ]

  pub has_client-remove_client :
      (i k : String) (s : ClientCache l)
      → has_client i (remove_client l k s).0 ≡ (has_client i s && not (k == i))
  unfolding remove_client on_evict prune_clones
  has_client-remove_client i k s =
      let s1 = prune_clones l k s in
      elim (Option-cases (l.remove k s1.cache).1) [
        | inl e ↦ ground (arith, laws.peek_remove i k s.cache)
        | inr (client, e) ↦ ground (arith, laws.peek_remove i k s.cache)
      ]

  remove_client-Shrinks : (k : String) (s : ClientCache l) → Shrinks s (remove_client l k s).0
  remove_client-Shrinks k s = record {
    clone_was = λ j h. ground (arith, has_clone-remove_client j k s);
    client_stays = λ j i h p c.
        ground (arith, has_clone-remove_client j k s, has_client-remove_client i k s, eq_iff k i);
  }

  pub remove_key-Shrinks :
      (k : String) (peek : Bool) (s : ClientCache l) → Shrinks s (remove_key l k peek s).0
  unfolding remove_key
  remove_key-Shrinks k peek s =
      let r = remove_client-Shrinks k s in
      record {
        clone_was = λ j h. ground (arith, laws.peek_remove j k s.clone_cache, r.clone_was j);
        client_stays = λ j i h p c. ground (arith, r.client_stays j i);
      }

  pub prune_from-Shrinks :
      (filter : Client → Bool) (ks : List String) (s : ClientCache l)
      → Shrinks s (prune_from l filter ks s).0
  unfolding prune_from
  prune_from-Shrinks filter [] s = same-Shrinks s
  prune_from-Shrinks filter (k ∷ ks) s =
      let hit = elim (l.peek k s.cache) as (λ _. Bool) [
        | none ↦ false
        | some client ↦ filter client
      ] in
      let t = (remove_key l k false s).0 in
      let s' = if hit then t else s in
      Shrinks-trans s s' (prune_from l filter ks s').0
        (if-Shrinks hit s t (remove_key-Shrinks k false s)) (prune_from-Shrinks filter ks s')

  pub purge_from-Shrinks : (ks : List String) (s : ClientCache l) → Shrinks s (purge_from l ks s).0
  unfolding purge_from
  purge_from-Shrinks [] s = same-Shrinks s
  purge_from-Shrinks (k ∷ ks) s =
      let s0 = (get l k s).0 in
      let t = (remove_key l k false s0).0 in
      let found = is_some (get l k s).1 in
      let s' = if found then t else s0 in
      Shrinks-trans s s0 (purge_from l (k ∷ ks) s).0 (get-Shrinks k s) (
        Shrinks-trans s0 s' (purge_from l ks s').0
          (if-Shrinks found s0 t (remove_key-Shrinks k false s0)) (purge_from-Shrinks ks s'))

  pub add_client-Shrinks :
      (k : String) (client : Client) (s : ClientCache l) → Shrinks s (add_client l k client s).0
  unfolding add_client evict on_evict
  add_client-Shrinks k client s =
      let s1 = record s { cache = (l.add k client s.cache).0 } in
      elim (Option-cases (l.add k client s.cache).1) [
        | inl e ↦ record {
          clone_was = λ j h. ground arith;
          client_stays = λ j i h p c. ground (arith, laws.peek_add i k client s.cache);
        }
        | inr ((k', left), e) ↦
            let s2 = record s1 { evicted = (k', left) ∷ s1.evicted } in
            let cached = cache-prune_clones k' s2 in
            record {
              clone_was = λ j h. ground (arith, has_clone-prune_clones j k' s2);
              client_stays = λ j i h p c. ground (
                arith,
                has_clone-prune_clones j k' s2,
                cached,
                laws.peek_add i k client s.cache,
                eq_iff k' i,
              );
            }
      ]
