-- ===== src/Controllers/Registry/Examples.antt =====
-- Runs of the sync registry, and its theorem at a concrete input.
use vault_secrets_operator.Base.{◌≡◌, refl, List, [], ◌∷◌, contains}
use vault_secrets_operator.Base.Map
use vault_secrets_operator.Api.Names.{ObjectKey, object_key}
use vault_secrets_operator.Controllers.Registry.{
  Call, add_call, delete_call, add, delete, has, object_keys, history, is_due, registry-is_due,
}

abbrev web : ObjectKey
web = record { namespace = "apps"; name = "web" }

abbrev db : ObjectKey
db = record { namespace = "apps"; name = "db" }

abbrev calls : List Call
calls = delete_call db ∷ add_call web ∷ add_call db ∷ []

web_is_left : object_keys (history calls) ≡ web ∷ []
unfolding history object_keys add delete Map.put Map.delete object_key
web_is_left = refl

registry-is_due_example :
    (has web (history calls) ≡ is_due web calls)
    × (contains web (object_keys (history calls)) ≡ is_due web calls)
    × ((delete web (history calls)).1 ≡ is_due web calls)
registry-is_due_example = registry-is_due web calls
