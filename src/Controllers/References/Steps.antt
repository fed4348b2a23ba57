-- ===== src/Controllers/References/Steps.antt =====
-- What one operation of the reference cache does to the relation it keeps.
use vault_secrets_operator.Base.{
  ◌≡◌, refl, true, false, ◌&&◌, not, List, [], ◌∷◌, arith, ◌==◌, if◌then◌else◌, contains, length,
}
use vault_secrets_operator.Base.Map
use vault_secrets_operator.Base.Map.{get-put, get-delete, contains-keys}
use vault_secrets_operator.Api.Names.{ObjectKey, object_key}
use vault_secrets_operator.Controllers.References.{
  ResourceKind, kind_key, KeySet, Scope, RefCache, scoped, ref_set, set, prune_scope, prune,
  referrers, remove,
}
use vault_secrets_operator.Controllers.References.Scopes.{
  in_scope, has-ref_set, in_scope-prune_scope, scope_at, scope_at-settle, scope_at-put,
  scoped_scope, scope_at-scoped, refers_scope,
}

-- What a referrer names once its set is written over, or deleted.
pub in_scope-put :
    (j r x : ObjectKey) (refs : KeySet) (scope : Scope)
    → in_scope (Map.put j refs scope) r x ≡ (if j == r then Map.has x refs else in_scope scope r x)
in_scope-put j r x refs scope = ground (arith, get-put j r refs scope)

pub in_scope-delete :
    (j r x : ObjectKey) (scope : Scope)
    → in_scope (Map.delete j scope) r x ≡ (if j == r then false else in_scope scope r x)
in_scope-delete j r x scope = ground (arith, get-delete j r scope)

pub set_scope :
    (c : RefCache) (kind k : ResourceKind) (referrer r x : ObjectKey) (references : List ObjectKey)
    → refers_scope (set kind referrer references c) k r x
      ≡ (if kind == k && referrer == r then contains x references else refers_scope c k r x)
unfolding set refers_scope contains
set_scope c kind k referrer r x [] =
    let old = scoped kind true c in
    ground (
      arith,
      scope_at-settle kind old.2 (Map.delete referrer old.0) k,
      scope_at-scoped kind c true k,
      scoped_scope kind c true,
      in_scope-delete referrer r x (scope_at c kind),
      kind_key.same_iff kind k,
    )
set_scope c kind k referrer r x (y ∷ ys) =
    let old = scoped kind true c in
    ground (
      arith,
      scope_at-put kind old.2 (Map.put referrer (ref_set (y ∷ ys)) old.0) k,
      scope_at-scoped kind c true k,
      scoped_scope kind c true,
      in_scope-put referrer r x (ref_set (y ∷ ys)) (scope_at c kind),
      has-ref_set x (y ∷ ys),
      kind_key.same_iff kind k,
    )

pub remove_scope :
    (c : RefCache) (kind k : ResourceKind) (referrer r x : ObjectKey)
    → refers_scope (remove kind referrer c).0 k r x
      ≡ (refers_scope c k r x && not (kind == k && referrer == r))
unfolding remove refers_scope scoped scope_at Map.get
remove_scope c kind k referrer r x = ground (
  arith,
  scope_at-settle kind c (Map.delete referrer (scope_at c kind)) k,
  in_scope-delete referrer r x (scope_at c kind),
  kind_key.same_iff kind k,
)

pub prune_refers :
    (c : RefCache) (kind k : ResourceKind) (reference r x : ObjectKey)
    → Map.has_unique_keys (scope_at c kind) ≡ true
    → refers_scope (prune kind reference c).0 k r x
      ≡ (refers_scope c k r x && not (kind == k && reference == x))
unfolding prune refers_scope scoped scope_at Map.get
prune_refers c kind k reference r x u = ground (
  arith,
  scope_at-settle kind c (prune_scope reference (scope_at c kind)).0 k,
  in_scope-prune_scope r reference x (scope_at c kind) u,
  kind_key.same_iff kind k,
)

pub length-referrers :
    (reference : ObjectKey) (scope : Scope)
    → (prune_scope reference scope).1 ≡ length (referrers reference scope)
unfolding prune_scope referrers
length-referrers reference [] = refl
length-referrers reference ((r, refs) ∷ scope) = ground (arith, length-referrers reference scope)

pub contains-referrers :
    (reference r : ObjectKey) (scope : Scope)
    → Map.has_unique_keys scope ≡ true
    → contains r (referrers reference scope) ≡ in_scope scope r reference
unfolding referrers Map.get Map.has_unique_keys contains
contains-referrers reference r [] u = refl
contains-referrers reference r ((j, refs) ∷ scope) u =
    ground
      (arith, contains-referrers reference r scope, contains-keys j scope, object_key.same_iff j r)
