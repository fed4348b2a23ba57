-- ===== src/Controllers/References/Examples.antt =====
-- Runs of the reference cache, and its theorems at concrete inputs.
use vault_secrets_operator.Base.{
  ◌≡◌, refl, false, ◌&&◌, not, List, [], ◌∷◌, ◌==◌, if◌then◌else◌, contains, length,
}
use vault_secrets_operator.Base.Map
use vault_secrets_operator.Api.Names.{ObjectKey, object_key}
use vault_secrets_operator.Controllers.References.{
  secret_transformation, vault_auth, kind_key, or_empty, scoped, settle, ref_set, set, prune_scope,
  prune, referrers, get,
}
use vault_secrets_operator.Controllers.References.Scopes.{refers}
use vault_secrets_operator.Controllers.References.Tight.{
  IsWellFormed, Call, set_call, history, history-IsWellFormed,
}
use vault_secrets_operator.Controllers.References.View.{refers-set, refers-prune}

abbrev app1 : ObjectKey
app1 = record { namespace = "apps"; name = "one" }

abbrev app2 : ObjectKey
app2 = record { namespace = "apps"; name = "two" }

abbrev tr : ObjectKey
tr = record { namespace = "shared"; name = "transform" }

abbrev other : ObjectKey
other = record { namespace = "shared"; name = "other" }

abbrev calls : List Call
calls =
    set_call secret_transformation app2 (tr ∷ other ∷ [])
    ∷ set_call vault_auth app1 (tr ∷ [])
    ∷ set_call secret_transformation app1 (tr ∷ [])
    ∷ []

-- Both applications are enqueued for the transformation.
get_both : get secret_transformation tr (history calls) ≡ app2 ∷ app1 ∷ []
unfolding history get scoped settle set ref_set referrers Map.get Map.put Map.delete object_key
    kind_key
get_both = refl

-- The transformation goes: `app1` names nothing more and leaves the cache.
prune_counts :
    let (c, n) = prune secret_transformation tr (history calls) in
    (n ≡ 2)
    × (get secret_transformation other c ≡ app2 ∷ [])
    × (Map.has app1 (or_empty (Map.get secret_transformation c)) ≡ false)
unfolding history prune prune_scope get scoped settle set ref_set referrers Map.get Map.put
    Map.delete object_key kind_key
prune_counts = (refl, refl, refl)

history-IsWellFormed_example : IsWellFormed (history calls)
history-IsWellFormed_example = history-IsWellFormed calls

refers-set_example :
    refers
      (set secret_transformation app1 (other ∷ []) (history calls))
      secret_transformation
      app1
      tr
    ≡ (if secret_transformation == secret_transformation && app1 == app1
        then contains tr (other ∷ [])
        else refers (history calls) secret_transformation app1 tr)
refers-set_example =
    refers-set (history calls) secret_transformation secret_transformation app1 app1 tr (other ∷ [])

refers-prune_example :
    (refers (prune secret_transformation tr (history calls)).0 secret_transformation app2 other ≡ (
      refers (history calls) secret_transformation app2 other
      && not (secret_transformation == secret_transformation && tr == other)))
    × ((prune secret_transformation tr (history calls)).1
        ≡ length (get secret_transformation tr (history calls)))
refers-prune_example =
    refers-prune (history calls) secret_transformation secret_transformation tr app2 other
      (history-IsWellFormed calls)
