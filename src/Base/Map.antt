-- ===== src/Base/Map.antt =====
-- Go's `map[K]V` as an association list. Go fixes no order of iteration; here a range goes
-- through the list, and what is proved speaks of lookups.
use mathlib.Core.Path.{◌≡◌, refl}
use mathlib.Core.Logic.{◌⊎◌}
use mathlib.Core.Bool.{Bool, true, false, not, ◌&&◌}
use mathlib.Core.Option.{Option, none, some}
use mathlib.Core.List.{List, [], ◌∷◌}
use native.Mathlib.Omega.{arith}
use vault_secrets_operator.Base.Tests.{if◌then◌else◌, is_some, or_else}
use vault_secrets_operator.Base.Keys.{Key, ◌==◌}
use vault_secrets_operator.Base.Lists.{contains}

abbrev pub Map {ℓ} : Type 0 → Type ℓ → Type ℓ
Map K V = List (K × V)

module _ {ℓ} {K : Type 0} {V : Type ℓ} ⦃e : Key K⦄ where
  -- v, ok := m[k]
  unfoldable pub get : K → Map K V → Option V
  get k [] = none
  get k ((j, v) ∷ m) = if j == k then some v else get k m

  -- delete(m, k)
  unfoldable pub delete : K → Map K V → Map K V
  delete k [] = []
  delete k ((j, v) ∷ m) = let rest = delete k m in if j == k then rest else (j, v) ∷ rest

  -- m[k] = v
  unfoldable pub put : K → V → Map K V → Map K V
  put k v m = (k, v) ∷ delete k m

  -- `for k, v := range from { to[k] = v }`, taking the entries last to first.
  unfoldable pub copy_into : Map K V → Map K V → Map K V
  copy_into [] to = to
  copy_into ((k, v) ∷ from) to = put k v (copy_into from to)

  abbrev pub has : K → Map K V → Bool
  has k m = is_some (get k m)

  unfoldable pub keys : Map K V → List K
  keys [] = []
  keys ((j, v) ∷ m) = j ∷ keys m

  -- Each key stands once.
  unfoldable pub has_unique_keys : Map K V → Bool
  has_unique_keys [] = true
  has_unique_keys ((j, v) ∷ m) = not (contains j (keys m)) && has_unique_keys m

  pub get-delete : (k j : K) (m : Map K V) → get j (delete k m) ≡ (if k == j then none else get j m)
  unfolding get delete
  get-delete k j [] = ground arith
  get-delete k j ((i, v) ∷ m) =
      ground (arith, get-delete k j m, e.same_iff i k, e.same_iff i j, e.same_iff k j)

  pub get-put :
      (k j : K) (v : V) (m : Map K V) → get j (put k v m) ≡ (if k == j then some v else get j m)
  unfolding get put
  get-put k j v m = ground (arith, get-delete k j m)

  pub get-copy_into :
      (k : K) (from to : Map K V) → get k (copy_into from to) ≡ or_else (get k from) (get k to)
  unfolding copy_into get
  get-copy_into k [] to = refl
  get-copy_into k ((j, v) ∷ from) to =
      ground (arith, get-copy_into k from to, get-put j k v (copy_into from to))

  -- What is found after a write is what was written, or was there.
  pub get-put_inv :
      (k j : K) (v x : V) (m : Map K V)
      → get j (put k v m) ≡ some x
      → (x ≡ v) ⊎ ((k == j) ≡ false) × (get j m ≡ some x)
  get-put_inv k j v x m h = ground (arith, get-put k j v m)

  pub get-delete_inv :
      (k j : K) (x : V) (m : Map K V)
      → get j (delete k m) ≡ some x
      → ((k == j) ≡ false) × (get j m ≡ some x)
  get-delete_inv k j x m h = ground (arith, get-delete k j m)

  pub contains-keys : (k : K) (m : Map K V) → contains k (keys m) ≡ has k m
  unfolding get keys contains
  contains-keys k [] = refl
  contains-keys k ((i, v) ∷ m) = ground (arith, contains-keys k m)

  pub delete-has_unique_keys :
      (k : K) (m : Map K V) → has_unique_keys m ≡ true → has_unique_keys (delete k m) ≡ true
  unfolding has_unique_keys delete
  delete-has_unique_keys k [] h = refl
  delete-has_unique_keys k ((i, v) ∷ m) h = ground (
    arith,
    delete-has_unique_keys k m,
    contains-keys i m,
    contains-keys i (delete k m),
    get-delete k i m,
  )

  pub put-has_unique_keys :
      (k : K) (v : V) (m : Map K V) → has_unique_keys m ≡ true → has_unique_keys (put k v m) ≡ true
  unfolding has_unique_keys put keys
  put-has_unique_keys k v m h = ground (
    arith,
    delete-has_unique_keys k m,
    contains-keys k (delete k m),
    get-delete k k m,
    e.same_iff k k,
  )
