-- ===== src/Controllers/References/Tight.antt =====
-- The shape of the reference cache between calls: each key stands once, and nothing empty is kept.
use vault_secrets_operator.Base.{
  ◌≡◌, refl, sym, ◌⊎◌, inl, inr, Bool-cases, Bool, true, false, Option, none, some, List, [], ◌∷◌,
  arith, ◌==◌,
}
use vault_secrets_operator.Base.Map
use vault_secrets_operator.Base.Map.{
  get-put, get-delete, contains-keys, get-put_inv, get-delete_inv,
}
use vault_secrets_operator.Api.Names.{ObjectKey, object_key}
use vault_secrets_operator.Controllers.References.{
  ResourceKind, kind_key, KeySet, Scope, RefCache, is_empty, or_empty, scoped, settle, ref_set, set,
  prune_scope, prune, remove,
}
use vault_secrets_operator.Controllers.References.Scopes.{has-prune_scope, scope_at, scoped_scope}
use vault_secrets_operator.Base.Map.{delete-has_unique_keys, put-has_unique_keys}
use mathlib.Core.Path.{subst}

pub record IsSound (s : Scope) : Type 0 where
  pub unique : Map.has_unique_keys s ≡ true
  pub sets : (r : ObjectKey) (refs : KeySet) → Map.get r s ≡ some refs → is_empty refs ≡ false

pub record IsWellFormed (c : RefCache) : Type 0 where
  pub kinds : Map.has_unique_keys c ≡ true
  pub scopes : (k : ResourceKind) (s : Scope) → Map.get k c ≡ some s → IsSound s
  pub live : (k : ResourceKind) (s : Scope) → Map.get k c ≡ some s → is_empty s ≡ false

empty-IsSound : IsSound []
unfolding Map.has_unique_keys Map.get
empty-IsSound = record { unique = refl; sets = λ r refs h. ground arith }

pub scope-IsSound : (c : RefCache) (k : ResourceKind) → IsWellFormed c → IsSound (scope_at c k)
unfolding scope_at
scope-IsSound c k w = go (Map.get k c) refl
  where
    go : (o : Option Scope) → Map.get k c ≡ o → IsSound (or_empty o)
    go none h = empty-IsSound
    go (some s) h = w.scopes k s h

pub unique_scope :
    (c : RefCache) (k : ResourceKind)
    → IsWellFormed c
    → Map.has_unique_keys (or_empty (Map.get k c)) ≡ true
unfolding scope_at
unique_scope c k w = (scope-IsSound c k w).unique

delete-IsSound : (r : ObjectKey) (s : Scope) → IsSound s → IsSound (Map.delete r s)
delete-IsSound r s i = record {
  unique = delete-has_unique_keys r s i.unique;
  sets = λ j refs h. ground (arith, get-delete r j s, i.sets j refs);
}

put-IsSound :
    (r : ObjectKey) (refs : KeySet) (s : Scope)
    → is_empty refs ≡ false
    → IsSound s
    → IsSound (Map.put r refs s)
put-IsSound r refs s n i = record {
  unique = put-has_unique_keys r refs s i.unique;
  sets = λ j x h. ground (arith, get-put r j refs s, i.sets j x);
}

-- Well-formed, but for what stands at one kind: such is the cache while that scope is written.
record IsWellFormedBut (k : ResourceKind) (c : RefCache) : Type 0 where
  kinds : Map.has_unique_keys c ≡ true
  scopes : (j : ResourceKind) (s : Scope) → (k == j) ≡ false → Map.get j c ≡ some s → IsSound s
  live :
      (j : ResourceKind) (s : Scope) → (k == j) ≡ false → Map.get j c ≡ some s → is_empty s ≡ false

but-IsWellFormed : (k : ResourceKind) {c : RefCache} → IsWellFormed c → IsWellFormedBut k c
but-IsWellFormed k w = record {
  kinds = w.kinds;
  scopes = λ j s d h. w.scopes j s h;
  live = λ j s d h. w.live j s h;
}

put-IsWellFormedBut :
    (k : ResourceKind) (s : Scope) (c : RefCache)
    → IsWellFormedBut k c
    → IsWellFormedBut k (Map.put k s c)
put-IsWellFormedBut k s c w = record {
  kinds = put-has_unique_keys k s c w.kinds;
  scopes = λ j x d h. w.scopes j x d (ground (arith, get-put k j s c));
  live = λ j x d h. w.live j x d (ground (arith, get-put k j s c));
}

put-IsWellFormed :
    (k : ResourceKind) (s : Scope) (c : RefCache)
    → is_empty s ≡ false
    → IsSound s
    → IsWellFormedBut k c
    → IsWellFormed (Map.put k s c)
put-IsWellFormed k s c n i w = record {
  kinds = put-has_unique_keys k s c w.kinds;
  scopes = λ j x h. elim (get-put_inv k j s x c h) [
    | inl e ↦ subst IsSound (sym e) i
    | inr (d, old) ↦ w.scopes j x d old
  ];
  live =
      λ j x h. elim (get-put_inv k j s x c h) [ inl e ↦ rw e n | inr (d, old) ↦ w.live j x d old ];
}

delete-IsWellFormed :
    (k : ResourceKind) (c : RefCache) → IsWellFormedBut k c → IsWellFormed (Map.delete k c)
delete-IsWellFormed k c w = record {
  kinds = delete-has_unique_keys k c w.kinds;
  scopes = λ j x h. let (d, old) = get-delete_inv k j x c h in w.scopes j x d old;
  live = λ j x h. let (d, old) = get-delete_inv k j x c h in w.live j x d old;
}

settle-IsWellFormed :
    (k : ResourceKind) (s : Scope) (c : RefCache)
    → IsSound s
    → IsWellFormedBut k c
    → IsWellFormed (settle k s c)
unfolding settle
settle-IsWellFormed k [] c i w = delete-IsWellFormed k c w
settle-IsWellFormed k (x ∷ xs) c i w = put-IsWellFormed k (x ∷ xs) c refl i w

ref_set-ne-nil : (r : ObjectKey) (rs : List ObjectKey) → is_empty (ref_set (r ∷ rs)) ≡ false
unfolding ref_set Map.put
ref_set-ne-nil r rs = refl

put-ne-nil : (r : ObjectKey) (refs : KeySet) (s : Scope) → is_empty (Map.put r refs s) ≡ false
unfolding Map.put
put-ne-nil r refs s = refl

scoped_cases :
    (k : ResourceKind) (init : Bool) (c : RefCache)
    → ((scoped k init c).2 ≡ c) ⊎ ((scoped k init c).2 ≡ Map.put k [] c)
unfolding scoped
scoped_cases k init c = ground arith

scoped-IsWellFormedBut :
    (k : ResourceKind) (init : Bool) (c : RefCache)
    → IsWellFormed c
    → IsWellFormedBut k (scoped k init c).2
scoped-IsWellFormedBut k init c w = elim (scoped_cases k init c) [
  | inl e ↦ subst (IsWellFormedBut k) (sym e) (but-IsWellFormed k w)
  | inr e ↦ subst (IsWellFormedBut k) (sym e) (put-IsWellFormedBut k [] c (but-IsWellFormed k w))
]

scoped-IsSound :
    (k : ResourceKind) (init : Bool) (c : RefCache) → IsWellFormed c → IsSound (scoped k init c).0
scoped-IsSound k init c w = subst IsSound (sym (scoped_scope k c init)) (scope-IsSound c k w)

prune_scope-sets :
    (x r : ObjectKey) (refs : KeySet) (s : Scope)
    → Map.get r (prune_scope x s).0 ≡ some refs
    → is_empty refs ≡ false
unfolding prune_scope Map.get
prune_scope-sets x r refs [] h = ground arith
prune_scope-sets x r refs ((j, old) ∷ s) h = ground (arith, prune_scope-sets x r refs s)

prune_scope_unique :
    (x : ObjectKey) (s : Scope)
    → Map.has_unique_keys s ≡ true
    → Map.has_unique_keys (prune_scope x s).0 ≡ true
unfolding prune_scope Map.has_unique_keys
prune_scope_unique x [] u = refl
prune_scope_unique x ((j, old) ∷ s) u = ground (
  arith,
  prune_scope_unique x s,
  contains-keys j s,
  contains-keys j (prune_scope x s).0,
  has-prune_scope j x s,
)

prune_scope-IsSound : (x : ObjectKey) (s : Scope) → IsSound s → IsSound (prune_scope x s).0
prune_scope-IsSound x s i = record {
  unique = prune_scope_unique x s i.unique;
  sets = λ r refs h. prune_scope-sets x r refs s h;
}

-- The new cache is well-formed.
pub new-IsWellFormed : IsWellFormed []
unfolding Map.get Map.has_unique_keys
new-IsWellFormed = record { kinds = refl; scopes = λ k s h. cc; live = λ k s h. cc }

set-IsWellFormed :
    (kind : ResourceKind) (referrer : ObjectKey) (references : List ObjectKey) (c : RefCache)
    → IsWellFormed c
    → IsWellFormed (set kind referrer references c)
unfolding set
set-IsWellFormed kind referrer [] c w =
    settle-IsWellFormed kind _ _ (delete-IsSound referrer _ (scoped-IsSound kind true c w))
      (scoped-IsWellFormedBut kind true c w)
set-IsWellFormed kind referrer (y ∷ ys) c w =
    put-IsWellFormed kind _ _ (put-ne-nil referrer (ref_set (y ∷ ys)) (scoped kind true c).0)
      (put-IsSound referrer _ _ (ref_set-ne-nil y ys) (scoped-IsSound kind true c w))
      (scoped-IsWellFormedBut kind true c w)

prune-IsWellFormed :
    (kind : ResourceKind) (reference : ObjectKey) (c : RefCache)
    → IsWellFormed c
    → IsWellFormed (prune kind reference c).0
unfolding prune
prune-IsWellFormed kind reference c w = elim (Bool-cases (scoped kind false c).1) [
  | inl found ↦ rw found (
      settle-IsWellFormed kind _ c (prune_scope-IsSound reference _ (scoped-IsSound kind false c w))
        (but-IsWellFormed kind w))
  | inr missing ↦ rw missing w
]

remove-IsWellFormed :
    (kind : ResourceKind) (referrer : ObjectKey) (c : RefCache)
    → IsWellFormed c
    → IsWellFormed (remove kind referrer c).0
unfolding remove
remove-IsWellFormed kind referrer c w = elim (Bool-cases (scoped kind false c).1) [
  | inl found ↦ rw found (
      settle-IsWellFormed kind _ c (delete-IsSound referrer _ (scoped-IsSound kind false c w))
        (but-IsWellFormed kind w))
  | inr missing ↦ rw missing w
]

-- A call that changes the cache.
pub data Call : Type 0 where
  set_call : ResourceKind → ObjectKey → List ObjectKey → Call
  prune_call : ResourceKind → ObjectKey → Call
  remove_call : ResourceKind → ObjectKey → Call

abbrev pub perform : Call → RefCache → RefCache
perform (set_call kind referrer references) c = set kind referrer references c
perform (prune_call kind reference) c = (prune kind reference c).0
perform (remove_call kind referrer) c = (remove kind referrer c).0

-- The calls from the new cache on, the latest first.
unfoldable pub history : List Call → RefCache
history [] = []
history (call ∷ calls) = perform call (history calls)

-- Whatever calls are made on a new cache, no key stands twice in it or in a scope, and it holds no
-- empty scope and no empty set of references.
pub history-IsWellFormed : (calls : List Call) → IsWellFormed (history calls)
unfolding history
history-IsWellFormed [] = new-IsWellFormed
history-IsWellFormed (set_call k r rs ∷ calls) =
    set-IsWellFormed k r rs (history calls) (history-IsWellFormed calls)
history-IsWellFormed (prune_call k r ∷ calls) =
    prune-IsWellFormed k r (history calls) (history-IsWellFormed calls)
history-IsWellFormed (remove_call k r ∷ calls) =
    remove-IsWellFormed k r (history calls) (history-IsWellFormed calls)
