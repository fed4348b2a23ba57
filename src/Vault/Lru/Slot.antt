-- ===== src/Vault/Lru/Slot.antt =====
-- A cache of one entry, at which the assumptions on the LRU cache hold.
use vault_secrets_operator.Base.{
  ◌≡◌, refl, String, Option, none, some, List, [], ◌∷◌, arith, text_key, eq_iff, ◌==◌,
  if◌then◌else◌, is_some, contains,
}
use vault_secrets_operator.Base.Result.{Result, ok}
use vault_secrets_operator.Common.Errors.{Error}
use vault_secrets_operator.Vault.Lru.{Lru, IsLru, is_at}
use vault_secrets_operator.Vault.Cache.{Client}

abbrev pub Slot : Type 0
Slot = Option (String × Client)

unfoldable pub slot_peek : String → Slot → Option Client
slot_peek k none = none
slot_peek k (some (j, v)) = if j == k then some v else none

unfoldable pub slot_add : String → Client → Slot → Slot × Slot
slot_add k v none = (some (k, v), none)
slot_add k v (some (j, w)) = (some (k, v), if j == k then none else some (j, w))

unfoldable pub slot_remove : String → Slot → Slot × Option Client
slot_remove k none = (none, none)
slot_remove k (some (j, v)) = if j == k then (none, some v) else (some (j, v), none)

unfoldable pub slot_keys : Slot → List String
slot_keys none = []
slot_keys (some (j, v)) = j ∷ []

abbrev pub slot : Lru String Client
slot = record {
  Cache = Slot;
  new = λ size. ok none;
  get = λ k c. (c, slot_peek k c);
  peek = slot_peek;
  add = slot_add;
  remove = slot_remove;
  keys = slot_keys;
  len = λ c. 1;
}

slot_new :
    (k : String) (c : Slot) → ◌≡◌ {A = Result Error Slot} (ok none) (ok c) → slot.peek k c ≡ none
unfolding slot_peek
slot_new k none e = refl
slot_new k (some (j, v)) e = absurd (ground arith)

slot_remove_law :
    (j k : String) (c : Slot)
    → slot.peek j (slot.remove k c).0 ≡ (if k == j then none else slot.peek j c)
unfolding slot_peek slot_remove
slot_remove_law j k none = ground arith
slot_remove_law j k (some (i, w)) = ground (arith, eq_iff i k, eq_iff k j, eq_iff i j)

slot_removed : (k : String) (c : Slot) → (slot.remove k c).1 ≡ slot.peek k c
unfolding slot_peek slot_remove
slot_removed k none = refl
slot_removed k (some (i, w)) = ground arith

slot_keys_law : (k : String) (c : Slot) → contains k (slot.keys c) ≡ is_some (slot.peek k c)
unfolding slot_peek slot_keys contains
slot_keys_law k none = refl
slot_keys_law k (some (i, w)) = ground arith

slot_add_law :
    (j k : String) (v : Client) (c : Slot)
    → slot.peek j (slot.add k v c).0
      ≡ (if k == j then some v else if is_at j (slot.add k v c).1 then none else slot.peek j c)
unfolding slot_peek slot_add
slot_add_law j k v none = ground arith
slot_add_law j k v (some (i, w)) = ground (arith, eq_iff i k, eq_iff k j, eq_iff i j)

pub slot-IsLru : IsLru slot
unfolding slot_peek slot_remove slot_keys contains
slot-IsLru = record {
  peek_new = λ size k c e. slot_new k c e;
  peek_get = λ j k c. refl;
  get_value = λ k c. refl;
  peek_add = slot_add_law;
  peek_remove = slot_remove_law;
  removed = slot_removed;
  contains_keys = slot_keys_law;
}
