-- ===== src/Controllers/References/Scopes.antt =====
-- Lemmas on the scopes of the reference cache, and on writing a scope back.
use vault_secrets_operator.Base.{
  ◌≡◌, refl, Bool, true, false, ◌&&◌, not, Option, none, some, List, [], ◌∷◌, arith, ◌==◌,
  if◌then◌else◌, is_some, contains,
}
use vault_secrets_operator.Base.Map
use vault_secrets_operator.Base.Map.{get-put, get-delete, contains-keys}
use vault_secrets_operator.Api.Names.{ObjectKey, object_key}
use vault_secrets_operator.Controllers.References.{
  ResourceKind, kind_key, KeySet, Scope, RefCache, or_empty, scoped, settle, ref_set, prune_scope,
}

abbrev pub names_in : ObjectKey → Option KeySet → Bool
names_in x none = false
names_in x (some refs) = Map.has x refs

-- The referrer names the reference within the scope.
abbrev pub in_scope : Scope → ObjectKey → ObjectKey → Bool
in_scope scope r x = names_in x (Map.get r scope)

-- The referrer names the reference, of that kind, according to the cache.
abbrev pub refers : RefCache → ResourceKind → ObjectKey → ObjectKey → Bool
refers c k r x = in_scope (or_empty (Map.get k c)) r x

pub has-ref_set : (x : ObjectKey) (rs : List ObjectKey) → Map.has x (ref_set rs) ≡ contains x rs
unfolding ref_set contains Map.get
has-ref_set x [] = refl
has-ref_set x (r ∷ rs) = ground (arith, has-ref_set x rs, get-put r x tt (ref_set rs))

-- A referrer that the scope lacks is not there after the range.
pub has-prune_scope :
    (r x : ObjectKey) (scope : Scope)
    → Map.has r scope ≡ false
    → Map.has r (prune_scope x scope).0 ≡ false
unfolding prune_scope Map.get
has-prune_scope r x [] h = refl
has-prune_scope r x ((j, refs) ∷ scope) h = ground (arith, has-prune_scope r x scope)

pub delete_hit :
    (x y : ObjectKey) (refs : KeySet)
    → Map.has y (if Map.has x refs then Map.delete x refs else refs)
      ≡ (Map.has y refs && not (x == y))
delete_hit x y refs = ground (arith, get-delete x y refs, object_key.same_iff x y)

pub in_scope-prune_scope :
    (r x y : ObjectKey) (scope : Scope)
    → Map.has_unique_keys scope ≡ true
    → in_scope (prune_scope x scope).0 r y ≡ (in_scope scope r y && not (x == y))
unfolding prune_scope Map.get Map.has_unique_keys
in_scope-prune_scope r x y [] u = refl
in_scope-prune_scope r x y ((j, refs) ∷ scope) u = ground (
  arith,
  in_scope-prune_scope r x y scope,
  has-prune_scope r x scope,
  delete_hit x y refs,
  contains-keys j scope,
  object_key.same_iff j r,
)

unfoldable pub scope_at : RefCache → ResourceKind → Scope
scope_at c k = or_empty (Map.get k c)

module _ (kind : ResourceKind) (c : RefCache) where
  pub scope_at-settle :
      (scope : Scope) (k : ResourceKind)
      → scope_at (settle kind scope c) k ≡ (if kind == k then scope else scope_at c k)
  unfolding scope_at settle
  scope_at-settle [] k = ground (arith, get-delete kind k c)
  scope_at-settle (x ∷ xs) k = ground (arith, get-put kind k (x ∷ xs) c)

  pub scope_at-put :
      (scope : Scope) (k : ResourceKind)
      → scope_at (Map.put kind scope c) k ≡ (if kind == k then scope else scope_at c k)
  unfolding scope_at
  scope_at-put scope k = ground (arith, get-put kind k scope c)

  pub scoped_scope : (init : Bool) → (scoped kind init c).0 ≡ scope_at c kind
  unfolding scoped scope_at
  scoped_scope init = ground arith

  pub scoped_found : (scoped kind false c).1 ≡ is_some (Map.get kind c)
  unfolding scoped
  scoped_found = ground arith

  pub scope_at-scoped :
      (init : Bool) (k : ResourceKind) → scope_at (scoped kind init c).2 k ≡ scope_at c k
  unfolding scoped scope_at
  scope_at-scoped init k = ground (arith, get-put kind k [] c, kind_key.same_iff kind k)

unfoldable pub refers_scope : RefCache → ResourceKind → ObjectKey → ObjectKey → Bool
refers_scope c k r x = in_scope (scope_at c k) r x

pub refers_at :
    (c : RefCache) (k : ResourceKind) (r x : ObjectKey) → refers c k r x ≡ refers_scope c k r x
unfolding refers_scope scope_at
refers_at c k r x = refl
