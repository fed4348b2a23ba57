-- ===== src/Controllers/References.antt =====
-- controllers/registry.go: resourceReferenceCache, which holds for each kind and each referrer
-- the set of objects of that kind that the referrer names.
pub mod Scopes
pub mod Tight
pub mod Steps
pub mod View
mod Examples
use vault_secrets_operator.Base.{
  ℕ, suc, ◌≡◌, ◌↔◌, Bool, true, false, Option, none, some, List, [], ◌∷◌, arith, Key, ◌==◌, nat_eq,
  if◌then◌else◌, is_some,
}
use vault_secrets_operator.Base.Map
use vault_secrets_operator.Base.Map.{Map}
use vault_secrets_operator.Api.Names.{ObjectKey, object_key}

pub data ResourceKind : Type 0 where
  secret_transformation vault_dynamic_secret vault_static_secret vault_pki_secret : ResourceKind
  hcp_vault_secrets_app vault_auth vault_auth_global : ResourceKind

-- The value of the constant (iota).
abbrev pub iota : ResourceKind → ℕ
iota secret_transformation = 0
iota vault_dynamic_secret = 1
iota vault_static_secret = 2
iota vault_pki_secret = 3
iota hcp_vault_secrets_app = 4
iota vault_auth = 5
iota vault_auth_global = 6

pub ResourceKind-same_iff : (a b : ResourceKind) → (nat_eq (iota a) (iota b) ≡ true) ↔ (a ≡ b)
ResourceKind-same_iff a b = ground arith

instance unfoldable pub kind_key : Key ResourceKind
kind_key = record { same = λ a b. nat_eq (iota a) (iota b); same_iff = ResourceKind-same_iff }

-- map[client.ObjectKey]empty
abbrev pub KeySet : Type 0
KeySet = Map ObjectKey (Unit {0})

abbrev pub Scope : Type 0
Scope = Map ObjectKey KeySet

abbrev pub RefCache : Type 0
RefCache = Map ResourceKind Scope

abbrev pub is_empty {ℓ} : {A : Type ℓ} → List A → Bool
is_empty [] = true
is_empty (_ ∷ _) = false

abbrev pub or_empty {ℓ} : {A : Type ℓ} → Option (List A) → List A
or_empty none = []
or_empty (some l) = l

-- The scope of a kind, whether it was there, and the cache; `init` adds an empty scope.
unfoldable pub scoped : ResourceKind → Bool → RefCache → Scope × Bool × RefCache
scoped kind init c = elim (Map.get kind c) [
  | some scope ↦ (scope, true, c)
  | none ↦ ([], false, if init then Map.put kind [] c else c)
]

-- The scope is shared with the cache: what was written to it stands in the cache too, and an
-- empty one is deleted there.
pub settle : ResourceKind → Scope → RefCache → RefCache
settle kind scope c = if is_empty scope then Map.delete kind c else Map.put kind scope c

unfoldable pub ref_set : List ObjectKey → KeySet
ref_set [] = []
ref_set (r ∷ rs) = Map.put r tt (ref_set rs)

unfoldable pub set : ResourceKind → ObjectKey → List ObjectKey → RefCache → RefCache
set kind referrer references c =
    let (scope, _, c1) = scoped kind true c in
    if is_empty references
    then settle kind (Map.delete referrer scope) c1
    else Map.put kind (Map.put referrer (ref_set references) scope) c1

-- The range over the scope: the scope that is left, and how many sets held the reference.
pub prune_scope : ObjectKey → Scope → Scope × ℕ
prune_scope reference [] = ([], 0)
prune_scope reference ((referrer, references) ∷ scope) =
    let (rest, count) = prune_scope reference scope in
    let hit = Map.has reference references in
    let left = if hit then Map.delete reference references else references in
    (if is_empty left then rest else (referrer, left) ∷ rest, if hit then suc count else count)

pub prune : ResourceKind → ObjectKey → RefCache → RefCache × ℕ
prune kind reference c =
    let (scope, found, _) = scoped kind false c in
    let (left, count) = prune_scope reference scope in
    if found then (settle kind left c, count) else (c, 0)

unfoldable pub referrers : ObjectKey → Scope → List ObjectKey
referrers reference [] = []
referrers reference ((referrer, references) ∷ scope) =
    let rest = referrers reference scope in
    if Map.has reference references then referrer ∷ rest else rest

unfoldable pub get : ResourceKind → ObjectKey → RefCache → List ObjectKey
get kind reference c =
    let (scope, found, _) = scoped kind false c in if found then referrers reference scope else []

pub remove : ResourceKind → ObjectKey → RefCache → RefCache × Bool
remove kind referrer c =
    let (scope, found, _) = scoped kind false c in
    if found
    then (settle kind (Map.delete referrer scope) c, Map.has referrer scope)
    else (c, false)
