-- ===== src/Kube/Memory.antt =====
-- A cluster in memory, at which the assumptions on the client hold.
use vault_secrets_operator.Base.{
  ◌≡◌, refl, String, Bool, true, false, ◌&&◌, Option, none, some, List, [], ◌∷◌, arith, ◌==◌,
  text_key, if◌then◌else◌, All, Option-cases, inl, inr, ap, ◌∙◌, eq_iff,
}
use vault_secrets_operator.Base.Map
use vault_secrets_operator.Base.Map.{Map, get-put, get-delete}
use vault_secrets_operator.Base.Result.{Result, ok, err}
use vault_secrets_operator.Api.Names.{ObjectKey, object_key}
use vault_secrets_operator.Api.Secret.{Secret, ApiError, not_found, already_exists, failure}
use vault_secrets_operator.Kube.Client.{Client, SameContent, IsFaithful}

abbrev pub Memory : Type 0
Memory = Map ObjectKey Secret

unfoldable pub find : ObjectKey → Memory → Option Secret
find key c = Map.get key c

unfoldable pub read : ObjectKey → Memory → Result ApiError Secret
read key c = elim (Map.get key c) [
  | none ↦ err not_found
  | some s ↦ if s.key == key then ok s else err (failure 0)
]

unfoldable pub matches : Map String String → Map String String → Bool
matches [] labels = true
matches ((k, v) ∷ wanted) labels =
    let rest = matches wanted labels in
    elim (Map.get k labels) [ none ↦ false | some o ↦ if o == v then rest else false ]

-- The Secret that is listed under a key, if any.
unfoldable pub listed : String → Map String String → Option Secret → ObjectKey → Bool
listed ns labels none key = false
listed ns labels (some s) key = s.key == key && (s.key.namespace == ns && matches labels s.labels)

unfoldable pub gather : String → Map String String → Memory → List ObjectKey → List Secret
unfolding listed matches
gather ns labels c [] = []
gather ns labels c (key ∷ keys) =
    let rest = gather ns labels c keys in
    elim (Map.get key c) [
      | none ↦ rest
      | some s ↦ if listed ns labels (some s) key then s ∷ rest else rest
    ]

unfoldable pub insert : Secret → Memory → Memory × Result ApiError Secret
insert s c = if Map.has s.key c then (c, err already_exists) else (Map.put s.key s c, ok s)

unfoldable pub write : Secret → Memory → Memory × Result ApiError Secret
write s c = if Map.has s.key c then (Map.put s.key s c, ok s) else (c, err not_found)

unfoldable pub erase : ObjectKey → Memory → Memory × Option ApiError
erase key c = if Map.has key c then (Map.delete key c, none) else (c, some not_found)

abbrev pub memory : Client
memory = record {
  Cluster = Memory;
  get = read;
  list = λ ns labels c. ok (gather ns labels c (Map.keys c));
  create = insert;
  update = write;
  delete = erase;
}

same_content : (s t : Secret) → s ≡ t → SameContent s t
same_content s t e = record {
  key = ap (λ (x : Secret). x.key) e;
  labels = ap (λ (x : Secret). x.labels) e;
  annotations = ap (λ (x : Secret). x.annotations) e;
  owner_references = ap (λ (x : Secret). x.owner_references) e;
  type = ap (λ (x : Secret). x.type) e;
  contents = ap (λ (x : Secret). x.contents) e;
}

some_ok : {ss ts : List Secret} → ◌≡◌ {A = Result ApiError (List Secret)} (ok ss) (ok ts) → ss ≡ ts
some_ok e = cc

listed_found :
    (ns : String) (labels : Map String String) (s : Secret) (key : ObjectKey) (c : Memory)
    → listed ns labels (some s) key ≡ true
    → Map.get key c ≡ some s
    → (find s.key c ≡ some s) × (s.key.namespace ≡ ns)
unfolding listed find
listed_found ns labels s key c h e =
    let same : s.key ≡ key = ground (arith, object_key.same_iff s.key key) in
    (ap (λ x. Map.get x c) same ∙ e, ground (arith, eq_iff s.key.namespace ns))

kept {ℓ} :
    (P : Secret → Type ℓ) (s : Secret) (b : Bool) (rest : List Secret)
    → (b ≡ true → P s)
    → All P rest
    → All P (if b then s ∷ rest else rest)
kept P s true rest h r = (h refl, r)
kept P s false rest h r = r

gather_found :
    (ns : String) (labels : Map String String) (c : Memory) (keys : List ObjectKey)
    → All (λ s. (find s.key c ≡ some s) × (s.key.namespace ≡ ns)) (gather ns labels c keys)
unfolding gather find
gather_found ns labels c [] = tt
gather_found ns labels c (key ∷ keys) = elim (Option-cases (Map.get key c)) [
  | inl e ↦ rw (e, gather) (gather_found ns labels c keys)
  | inr (s, e) ↦
      rw (e, gather)
        (kept _ s (listed ns labels (some s) key) _ (λ h. listed_found ns labels s key c h e)
          (gather_found ns labels c keys))
]

read_found :
    (key : ObjectKey) (c : Memory) (s : Secret)
    → read key c ≡ ok s
    → (find key c ≡ some s) × (s.key ≡ key)
unfolding read find
read_found key c s e = elim (Option-cases (Map.get key c)) [
  | inl n ↦ ground arith
  | inr (t, i) ↦ ground (arith, object_key.same_iff t.key key)
]

insert_ok :
    (s t : Secret) (c : Memory)
    → (insert s c).1 ≡ ok t
    → (find s.key (insert s c).0 ≡ some t) × (s ≡ t)
unfolding insert find
insert_ok s t c e = ground (arith, get-put s.key s.key s c, object_key.same_iff s.key s.key)

write_ok :
    (s t : Secret) (c : Memory)
    → (write s c).1 ≡ ok t
    → (find s.key (write s c).0 ≡ some t) × (s ≡ t)
unfolding write find
write_ok s t c e = ground (arith, get-put s.key s.key s c, object_key.same_iff s.key s.key)

pub memory-IsFaithful : IsFaithful memory find
unfolding find read insert write erase
memory-IsFaithful = record {
  get_ok = read_found;
  get_not_found = λ key c e. ground arith;
  list_ok = λ ns labels c ss e. rw (← some_ok e) (gather_found ns labels c (Map.keys c));
  create_frame = λ s key c n. ground (arith, get-put s.key key s c, object_key.same_iff s.key key);
  create_keeps = λ s t c h. ground arith;
  create_ok = λ s t c e. let (i, q) = insert_ok s t c e in (i, same_content s t q);
  update_frame = λ s key c n. ground (arith, get-put s.key key s c, object_key.same_iff s.key key);
  update_ok = λ s t c e. let (i, q) = write_ok s t c e in (i, same_content s t q);
  delete_frame = λ d key c n. ground (arith, get-delete d key c, object_key.same_iff d key);
}
