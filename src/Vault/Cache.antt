-- ===== src/Vault/Cache.antt =====
-- vault/cache.go: the cache of the clients of Vault, and beside it the one of their clones.
pub mod Pruned
pub mod Parents
mod Examples
use vault_secrets_operator.Base.{
  ℕ, suc, String, Bool, true, false, not, ◌&&◌, Option, none, some, List, [], ◌∷◌, ◌++◌, text_key,
  if◌then◌else◌, is_some, contains,
}
use vault_secrets_operator.Base.Result.{Result, ok, err}
use vault_secrets_operator.Common.Errors.{Error}
use vault_secrets_operator.Vault.Lru.{Lru}
use vault_secrets_operator.Vault.CacheKey.Clone.{is_clone, has_prefix}

-- What the cache asks of a Client: GetCacheKey and IsClone, and a number that tells clients apart.
pub record Client : Type 0 where
  pub id : ℕ
  pub cache_key : Result Error String
  pub clone : Bool

pub data CacheError : Type 0 where
  no_key : Error → CacheError
  invalid_key : String → CacheError

module _ (l : Lru String Client) where
  -- clientCache; `evicted` grows at its head with the calls of the eviction callback.
  pub record ClientCache : Type 0 where
    pub cache : l.Cache
    pub clone_cache : l.Cache
    pub evicted : List (String × Client)
    pub evictions : ℕ
    pub hits : ℕ
    pub misses : ℕ
    pub clone_evictions : ℕ
    pub clone_hits : ℕ
    pub clone_misses : ℕ

  -- NewClientCache: two caches of a size.
  unfoldable pub new_client_cache : ℕ → Result Error ClientCache
  new_client_cache size = elim (l.new size) [
    | err e ↦ err e
    | ok c ↦ ok (record {
      cache = c;
      clone_cache = c;
      evicted = [];
      evictions = 0;
      hits = 0;
      misses = 0;
      clone_evictions = 0;
      clone_hits = 0;
      clone_misses = 0;
    })
  ]

  -- One key of the loop of pruneClones.
  unfoldable pub prune_key : String → String → l.Cache → l.Cache
  prune_key key k c =
      if not (has_prefix k key) then c else if is_some (l.peek k c) then (l.remove k c).0 else c

  unfoldable pub prune_keys : String → List String → l.Cache → l.Cache
  prune_keys key [] c = c
  prune_keys key (k ∷ ks) c = prune_keys key ks (prune_key key k c)

  unfoldable pub prune_clones : String → ClientCache → ClientCache
  prune_clones key s = record s {
    clone_cache = prune_keys key (l.keys s.clone_cache) s.clone_cache;
  }

  -- The function that NewClientCache gives to the LRU cache: the caller's, and pruneClones.
  unfoldable pub on_evict : String → Client → ClientCache → ClientCache
  on_evict key client s = prune_clones key (record s { evicted = (key, client) ∷ s.evicted })

  unfoldable pub get : String → ClientCache → ClientCache × Option Client
  get key s =
      let (clones, clone) = l.get key s.clone_cache in
      let (cache, client) = l.get key s.cache in
      if is_clone key
      then elim clone [
        | some c ↦ (record s { clone_cache = clones; clone_hits = suc s.clone_hits }, some c)
        | none ↦ (record s { clone_cache = clones; clone_misses = suc s.clone_misses }, none)
      ]
      else elim client [
        | some c ↦ (record s { cache = cache; hits = suc s.hits }, some c)
        | none ↦ (record s { cache = cache; misses = suc s.misses }, none)
      ]

  unfoldable pub add_clone : String → Client → ClientCache → ClientCache × Bool
  add_clone key client s =
      let (clones, left) = l.add key client s.clone_cache in
      (
        record s {
          clone_cache = clones;
          clone_evictions = if is_some left then suc s.clone_evictions else 0;
        },
        is_some left,
      )

  unfoldable pub evict : Option (String × Client) → ClientCache → ClientCache
  evict none s = s
  evict (some (key, client)) s = on_evict key client s

  unfoldable pub add_client : String → Client → ClientCache → ClientCache × Bool
  add_client key client s =
      let (cache, left) = l.add key client s.cache in
      let s' = evict left (record s { cache = cache }) in
      (record s' { evictions = if is_some left then suc s'.evictions else 0 }, is_some left)

  -- Add: whether an entry was evicted.
  unfoldable pub add : Client → ClientCache → ClientCache × Result CacheError Bool
  add client s = elim client.cache_key [
    | err e ↦ (s, err (no_key e))
    | ok key ↦
        let (cloned, left_clone) = add_clone key client s in
        let (added, left) = add_client key client s in
        if client.clone
        then (if not (is_clone key) then (s, err (invalid_key key)) else (cloned, ok left_clone))
        else (added, ok left)
  ]

  -- The callback is called for an entry that is removed, too.
  unfoldable pub remove_client : String → ClientCache → ClientCache × Bool
  remove_client key s =
      let (cache, left) = l.remove key (prune_clones key s).cache in
      let s' = record (prune_clones key s) { cache = cache } in
      elim left [ none ↦ (s', false) | some client ↦ (on_evict key client s', true) ]

  -- remove
  unfoldable pub remove_key : String → Bool → ClientCache → ClientCache × Bool
  remove_key key peek s =
      let (clones, left) = l.remove key s.clone_cache in
      let removed = remove_client key s in
      if is_clone key
      then (if peek && not (is_some (l.peek key s.clone_cache))
          then (s, false)
          else (record s { clone_cache = clones }, is_some left))
      else if peek && not (is_some (l.peek key s.cache))
      then (s, false)
      else removed

  -- Remove
  unfoldable pub remove : String → ClientCache → ClientCache × Bool
  remove key s = remove_key key true s

  -- The loop of Prune; the clients that were removed.
  unfoldable pub prune_from :
      (Client → Bool) → List String → ClientCache → ClientCache × List Client
  prune_from filter [] s = (s, [])
  prune_from filter (k ∷ ks) s =
      let found = l.peek k s.cache in
      let hit = elim found as (λ _. Bool) [ none ↦ false | some client ↦ filter client ] in
      let (s1, removed) = remove_key k false s in
      let s' = if hit then s1 else s in
      let (s2, rest) = prune_from filter ks s' in
      (
        s2,
        elim found [ none ↦ rest | some client ↦ if hit && removed then client ∷ rest else rest ],
      )

  unfoldable pub prune : (Client → Bool) → ClientCache → ClientCache × List Client
  prune filter s = prune_from filter (l.keys s.cache) s

  -- The loop of Purge; the keys that were removed.
  unfoldable pub purge_from : List String → ClientCache → ClientCache × List String
  purge_from [] s = (s, [])
  purge_from (k ∷ ks) s =
      let (s0, found) = get k s in
      let (s1, removed) = remove_key k false s0 in
      let s' = if is_some found then s1 else s0 in
      let (s2, rest) = purge_from ks s' in (s2, if is_some found && removed then k ∷ rest else rest)

  unfoldable pub purge : ClientCache → ClientCache × List String
  purge s = purge_from (l.keys s.cache) s

  unfoldable pub contains_key : String → ClientCache → Bool
  contains_key key s = is_some (l.peek key s.cache)

  unfoldable pub len : ClientCache → ℕ
  len s = l.len s.cache
