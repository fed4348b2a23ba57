-- ===== src/Controllers/Registry.antt =====
-- controllers/registry.go: SyncRegistry, the set of objects that must be synced at their next
-- reconciliation.
mod Examples
use vault_secrets_operator.Base.{
  ◌≡◌, refl, ◌∙◌, Bool, true, false, ◌&&◌, ◌||◌, not, Option, none, some, List, [], ◌∷◌, arith, Key,
  ◌==◌, if◌then◌else◌, is_some, contains,
}
use vault_secrets_operator.Base.Map
use vault_secrets_operator.Base.Map.{Map, get-put, get-delete, contains-keys}
use vault_secrets_operator.Api.Names.{ObjectKey, object_key}

abbrev pub SyncRegistry : Type 0
SyncRegistry = Map ObjectKey (Unit {0})

unfoldable pub add : ObjectKey → SyncRegistry → SyncRegistry
add k r = Map.put k tt r

unfoldable pub delete : ObjectKey → SyncRegistry → SyncRegistry × Bool
delete k r = (Map.delete k r, Map.has k r)

unfoldable pub has : ObjectKey → SyncRegistry → Bool
has k r = Map.has k r

-- The range over the map.
pub object_keys : SyncRegistry → List ObjectKey
object_keys [] = []
object_keys ((k, _) ∷ r) = k ∷ object_keys r

-- The calls of the reconcilers and of the event handlers.
pub data Call : Type 0 where
  add_call : ObjectKey → Call
  delete_call : ObjectKey → Call

abbrev pub perform : Call → SyncRegistry → SyncRegistry
perform (add_call k) r = add k r
perform (delete_call k) r = (delete k r).0

-- The calls from the new registry on, the latest first.
pub history : List Call → SyncRegistry
history [] = []
history (call ∷ calls) = perform call (history calls)

-- What the registry promises: the latest call for the object was an `Add`.
pub is_due : ObjectKey → List Call → Bool
is_due k [] = false
is_due k (add_call j ∷ calls) = j == k || is_due k calls
is_due k (delete_call j ∷ calls) = not (j == k) && is_due k calls

has-history : (k : ObjectKey) (calls : List Call) → has k (history calls) ≡ is_due k calls
unfolding has history add delete is_due Map.get
has-history k [] = refl
has-history k (add_call j ∷ calls) =
    ground (arith, has-history k calls, get-put j k tt (history calls))
has-history k (delete_call j ∷ calls) =
    ground (arith, has-history k calls, get-delete j k (history calls))

contains-object_keys : (k : ObjectKey) (r : SyncRegistry) → contains k (object_keys r) ≡ has k r
unfolding object_keys has Map.get contains
contains-object_keys k [] = refl
contains-object_keys k ((j, _) ∷ r) = ground (arith, contains-object_keys k r)

-- Whatever calls were made, `Has`, `ObjectKeys` and the result of `Delete` agree: they tell
-- whether the latest call for the object was an `Add`.
pub registry-is_due :
    (k : ObjectKey) (calls : List Call)
    → (has k (history calls) ≡ is_due k calls)
      × (contains k (object_keys (history calls)) ≡ is_due k calls)
      × ((delete k (history calls)).1 ≡ is_due k calls)
unfolding delete has
registry-is_due k calls = (
  has-history k calls,
  contains-object_keys k (history calls) ∙ has-history k calls,
  has-history k calls,
)
