-- ===== src/Vault/Lru.antt =====
-- github.com/hashicorp/golang-lru, which is not part of the repository: its operations, and what is
-- documented of them. Which entry is evicted is not said.
pub mod Slot
use vault_secrets_operator.Base.{
  ℕ, ◌≡◌, ◌⊎◌, Bool, true, false, Option, none, some, List, Key, ◌==◌, if◌then◌else◌, is_some,
  contains,
}
use vault_secrets_operator.Base.Result.{Result, ok}
use vault_secrets_operator.Common.Errors.{Error}

pub record Lru (K V : Type 0) : Type 1 where
  pub Cache : Type 0
  pub new : ℕ → Result Error Cache
  pub get : K → Cache → Cache × Option V
  pub peek : K → Cache → Option V
  -- The entry that was evicted, or removed: the one that the callback is called with.
  pub add : K → V → Cache → Cache × Option (K × V)
  pub remove : K → Cache → Cache × Option V
  pub keys : Cache → List K
  pub len : Cache → ℕ

-- Whether an entry is the one under a key.
abbrev pub is_at : {K V : Type 0} ⦃e : Key K⦄ → K → Option (K × V) → Bool
is_at j none = false
is_at j (some (k, _)) = k == j

pub record IsLru {K V : Type 0} ⦃e : Key K⦄ (l : Lru K V) : Type 0 where
  pub peek_new : (size : ℕ) (k : K) (c : l.Cache) → l.new size ≡ ok c → l.peek k c ≡ none
  pub peek_get : (j k : K) (c : l.Cache) → l.peek j (l.get k c).0 ≡ l.peek j c
  pub get_value : (k : K) (c : l.Cache) → (l.get k c).1 ≡ l.peek k c
  pub peek_add :
      (j k : K) (v : V) (c : l.Cache)
      → l.peek j (l.add k v c).0
        ≡ (if k == j then some v else if is_at j (l.add k v c).1 then none else l.peek j c)
  pub peek_remove :
      (j k : K) (c : l.Cache) → l.peek j (l.remove k c).0 ≡ (if k == j then none else l.peek j c)
  pub removed : (k : K) (c : l.Cache) → (l.remove k c).1 ≡ l.peek k c
  pub contains_keys : (k : K) (c : l.Cache) → contains k (l.keys c) ≡ is_some (l.peek k c)
