-- ===== src/Vault/Cache/Parents.antt =====
-- Every clone in the cache has its parent there, over all the calls of the cache.
use mathlib.Core.Path.{subst}
use vault_secrets_operator.Base.{
  sym, ℕ, ◌≡◌, ◌⊎◌, String, inl, inr, Bool-cases, Bool, true, false, arith, text_key, eq_iff, ◌==◌,
}
use vault_secrets_operator.Base.Result.{ok, Result-cases}
use vault_secrets_operator.Vault.Lru.{Lru, IsLru}
use vault_secrets_operator.Vault.CacheKey.Clone.{is_clone, has_prefix}
use vault_secrets_operator.Vault.Cache.{
  Client, ClientCache, new_client_cache, get, add_clone, add_client, add, remove, remove_key, prune,
  prune_from, purge, purge_from,
}
use vault_secrets_operator.Vault.Cache.Pruned.{
  has_client, has_clone, Shrinks, get-Shrinks, remove_key-Shrinks, prune_from-Shrinks,
  purge_from-Shrinks, add_client-Shrinks,
}

module _ (l : Lru String Client) (laws : IsLru l) where
  -- A key with a client, of which another key is a continuation.
  unfoldable pub Parent : String → ClientCache l → Type 0
  Parent j s = (k : String) × (has_client l laws k s ≡ true) × (has_prefix j k ≡ true)

  unfoldable pub HasParents : ClientCache l → Type 0
  HasParents s = (j : String) → has_clone l laws j s ≡ true → Parent j s

  -- The calls of the cache. A client is cloned, and the clone is added, while its parent is cached.
  pub data Step (s : ClientCache l) : ClientCache l → Type 0 where
    got : (key : String) → Step s (get l key s).0
    added :
        (client : Client)
        → ((key : String) → client.clone ≡ true → client.cache_key ≡ ok key → Parent key s)
        → Step s (add l client s).0
    removed : (key : String) → Step s (remove l key s).0
    pruned : (filter : Client → Bool) → Step s (prune l filter s).0
    purged : Step s (purge l s).0

  -- The cache after NewClientCache, and after calls.
  pub data Reach : ClientCache l → Type 0 where
    new : (size : ℕ) (s : ClientCache l) → new_client_cache l size ≡ ok s → Reach s
    later : {s t : ClientCache l} → Reach s → Step s t → Reach t

  Shrinks-HasParents : (s t : ClientCache l) → Shrinks l laws s t → HasParents s → HasParents t
  unfolding HasParents Parent
  Shrinks-HasParents s t sh inv j h =
      let (k, there, p) = inv j (sh.clone_was j h) in (k, sh.client_stays j k h p there, p)

  add_clone-HasParents :
      (key : String) (client : Client) (s : ClientCache l)
      → Parent key s
      → HasParents s
      → HasParents (add_clone l key client s).0
  unfolding HasParents Parent add_clone
  add_clone-HasParents key client s parent inv j h = elim (Bool-cases (key == j)) [
    | inl same ↦ rw⁻¹ ((eq_iff key j).0 same) parent
    | inr other ↦ inv j (ground (arith, laws.peek_add j key client s.clone_cache))
  ]

  -- The result of Add, in each case.
  add_cases :
      (client : Client) (s : ClientCache l)
      → ((add l client s).0 ≡ s)
        ⊎ ((key : String) × (client.cache_key ≡ ok key)
            × (((client.clone ≡ false) × ((add l client s).0 ≡ (add_client l key client s).0))
                ⊎ ((client.clone ≡ true) × ((add l client s).0 ≡ (add_clone l key client s).0))))
  unfolding add
  add_cases client s = elim (Result-cases client.cache_key) [
    | inl (x, e) ↦ inl (ground arith)
    | inr (key, e) ↦ elim (Bool-cases client.clone) [
      | inr plain ↦ inr (key, e, inl (plain, ground arith))
      | inl clone ↦ elim (Bool-cases (is_clone key)) [
        | inr other ↦ inl (ground arith)
        | inl proper ↦ inr (key, e, inr (clone, ground arith))
      ]
    ]
  ]

  add-HasParents :
      (client : Client) (s : ClientCache l)
      → ((key : String) → client.clone ≡ true → client.cache_key ≡ ok key → Parent key s)
      → HasParents s
      → HasParents (add l client s).0
  add-HasParents client s may inv = elim (add_cases client s) [
    | inl same ↦ subst HasParents (sym same) inv
    | inr (key, e, inl (plain, same)) ↦ subst HasParents (sym same) (
        Shrinks-HasParents s (add_client l key client s).0 (add_client-Shrinks l laws key client s)
          inv)
    | inr (key, e, inr (clone, same)) ↦
        subst HasParents (sym same) (add_clone-HasParents key client s (may key clone e) inv)
  ]

  Step-HasParents : (s : ClientCache l) {t : ClientCache l} → Step s t → HasParents s → HasParents t
  unfolding remove prune purge
  Step-HasParents s (got key) inv =
      Shrinks-HasParents s (get l key s).0 (get-Shrinks l laws key s) inv
  Step-HasParents s (added client may) inv = add-HasParents client s may inv
  Step-HasParents s (removed key) inv =
      Shrinks-HasParents s (remove_key l key true s).0 (remove_key-Shrinks l laws key true s) inv
  Step-HasParents s (pruned filter) inv =
      Shrinks-HasParents s (prune_from l filter (l.keys s.cache) s).0
        (prune_from-Shrinks l laws filter (l.keys s.cache) s) inv
  Step-HasParents s purged inv =
      Shrinks-HasParents s (purge_from l (l.keys s.cache) s).0
        (purge_from-Shrinks l laws (l.keys s.cache) s) inv

  new-HasParents : (size : ℕ) (s : ClientCache l) → new_client_cache l size ≡ ok s → HasParents s
  unfolding HasParents new_client_cache
  new-HasParents size s e j h = elim (Result-cases (l.new size)) [
    | inl (x, d) ↦ absurd (ground arith)
    | inr (c, d) ↦ absurd (ground (arith, laws.peek_new size j c d))
  ]

  -- Every clone that is cached has a client under a key that its own continues: a client that is
  -- removed, pruned, purged or evicted takes its clones with it.
  pub Reach-HasParents : {s : ClientCache l} → Reach s → HasParents s
  Reach-HasParents (new size s e) = new-HasParents size s e
  Reach-HasParents (later {s = s} r step) = Step-HasParents s step (Reach-HasParents r)
