-- ===== src/Vault/Cache/Examples.antt =====
-- The client cache over LRU caches of one entry.

use mathlib.Core.Path.{subst}
use vault_secrets_operator.Base.{◌≡◌, refl, String, true, false, none, some, [], arith, text_key}
use vault_secrets_operator.Base.Result.{ok}
use vault_secrets_operator.Vault.Lru.Slot.{
  slot, slot-IsLru, slot_add, slot_remove, slot_peek, slot_keys,
}
use vault_secrets_operator.Vault.CacheKey.Clone.{
  strip_prefix, is_hex_digit, take_hex, match_method, match_key, is_line, is_suffix, is_clone,
}
use vault_secrets_operator.Vault.Cache.{
  Client, ClientCache, new_client_cache, add, add_client, add_clone, evict, on_evict, prune_clones,
  prune_keys, prune_key,
}
use vault_secrets_operator.Vault.Cache.Parents.{
  HasParents, Reach, new, later, added, Parent, Reach-HasParents,
}

-- A client and its clone for the namespace ns1.
abbrev parent_key : String
parent_key = "kubernetes-2a8108711ae49ac0faa724"

abbrev clone_key : String
clone_key = "kubernetes-2a8108711ae49ac0faa724-ns1"

abbrev client : Client
client = record { id = 1; cache_key = ok parent_key; clone = false }

abbrev clone : Client
clone = record { id = 2; cache_key = ok clone_key; clone = true }

abbrev empty : ClientCache slot
empty = record {
  cache = none;
  clone_cache = none;
  evicted = [];
  evictions = 0;
  hits = 0;
  misses = 0;
  clone_evictions = 0;
  clone_hits = 0;
  clone_misses = 0;
}

abbrev with_clone : ClientCache slot
with_clone = (add slot clone (add slot client empty).0).0

clone_is_cached : with_clone.clone_cache ≡ some (clone_key, clone)
unfolding add add_client add_clone evict slot_add is_clone match_key match_method take_hex
    strip_prefix is_hex_digit is_suffix is_line
clone_is_cached = refl

-- With room for one client, another one evicts the first, and its clone goes with it.
other_evicts :
    ((add slot (record client { cache_key = ok "jwt-2a8108711ae49ac0faa724" }) with_clone).0
    ).clone_cache
    ≡ none
unfolding add add_client add_clone evict on_evict prune_clones prune_keys prune_key slot_add
    slot_keys slot_peek slot_remove is_clone match_key match_method take_hex strip_prefix
    is_hex_digit is_suffix is_line
other_evicts = refl

clone-Parent : Parent slot slot-IsLru clone_key (add slot client empty).0
unfolding Parent add add_client evict slot_add slot_peek strip_prefix
clone-Parent = (parent_key, refl, refl)

clone_key-Parent :
    (key : String)
    → clone.clone ≡ true
    → clone.cache_key ≡ ok key
    → Parent slot slot-IsLru key (add slot client empty).0
clone_key-Parent key h e =
    subst (λ k. Parent slot slot-IsLru k (add slot client empty).0) (ground arith) clone-Parent

reachable : Reach slot slot-IsLru with_clone
reachable =
    later
      (later (new 1 empty (unfold new_client_cache in refl))
        (added client (λ key h e. absurd (ground arith))))
      (added clone clone_key-Parent)

Reach-HasParents_example : HasParents slot slot-IsLru with_clone
Reach-HasParents_example = Reach-HasParents slot slot-IsLru reachable
