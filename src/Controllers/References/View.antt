-- ===== src/Controllers/References/View.antt =====
-- What the reference cache promises: a relation of kinds, referrers and references, which every
-- operation changes exactly as its name says.
use vault_secrets_operator.Base.{◌≡◌, ◌&&◌, not, List, arith, ◌==◌, if◌then◌else◌, contains, length}
use vault_secrets_operator.Base.Map
use vault_secrets_operator.Base.Map.{get-put, get-delete, contains-keys}
use vault_secrets_operator.Api.Names.{ObjectKey, object_key}
use vault_secrets_operator.Controllers.References.{
  ResourceKind, kind_key, RefCache, or_empty, scoped, set, prune, get, remove,
}
use vault_secrets_operator.Controllers.References.Scopes.{refers, scope_at, refers_at}
use vault_secrets_operator.Controllers.References.Steps.{
  set_scope, remove_scope, prune_refers, length-referrers, contains-referrers,
}
use vault_secrets_operator.Controllers.References.Tight.{IsWellFormed, unique_scope}

-- After `set` the referrer names exactly the references that were given; what other referrers
-- name, and what is named of other kinds, is unchanged.
pub refers-set :
    (c : RefCache) (kind k : ResourceKind) (referrer r x : ObjectKey) (references : List ObjectKey)
    → refers (set kind referrer references c) k r x
      ≡ (if kind == k && referrer == r then contains x references else refers c k r x)
refers-set c kind k referrer r x references =
    rw (refers_at (set kind referrer references c) k r x, refers_at c k r x)
      (set_scope c kind k referrer r x references)

-- After `remove` the referrer names nothing of that kind; all else is unchanged. The result says
-- whether the referrer had an entry.
pub refers-remove :
    (c : RefCache) (kind k : ResourceKind) (referrer r x : ObjectKey)
    → (refers (remove kind referrer c).0 k r x
        ≡ (refers c k r x && not (kind == k && referrer == r)))
      × ((remove kind referrer c).1 ≡ Map.has referrer (or_empty (Map.get kind c)))
unfolding remove scoped Map.get
refers-remove c kind k referrer r x = (
  rw (refers_at (remove kind referrer c).0 k r x, refers_at c k r x)
      (remove_scope c kind k referrer r x),
  ground arith,
)

-- In a well-formed cache, `prune` takes the one reference of the kind from every referrer and
-- changes nothing else, and its result counts the referrers that `get` returned before.
pub refers-prune :
    (c : RefCache) (kind k : ResourceKind) (reference r x : ObjectKey)
    → IsWellFormed c
    → (refers (prune kind reference c).0 k r x
        ≡ (refers c k r x && not (kind == k && reference == x)))
      × ((prune kind reference c).1 ≡ length (get kind reference c))
unfolding prune get scoped scope_at Map.get
refers-prune c kind k reference r x w = (
  rw (refers_at (prune kind reference c).0 k r x, refers_at c k r x)
      (prune_refers c kind k reference r x (unique_scope c kind w)),
  ground (arith, length-referrers reference (or_empty (Map.get kind c))),
)

-- In a well-formed cache `get` returns exactly the referrers that name the reference.
pub contains-get :
    (c : RefCache) (kind : ResourceKind) (reference r : ObjectKey)
    → IsWellFormed c
    → contains r (get kind reference c) ≡ refers c kind r reference
unfolding get scoped Map.get contains
contains-get c kind reference r w =
    ground
      (arith, contains-referrers reference r (or_empty (Map.get kind c)) (unique_scope c kind w))
