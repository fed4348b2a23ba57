-- ===== src/Helpers/Templates/Unique.antt =====
-- The names of the gathered templates.
use vault_secrets_operator.Base.{
  ◌≡◌, refl, ap, ◌∙◌, ℕ, String, Bool, true, false, not, ◌&&◌, ◌||◌, List, [], ◌∷◌, ◌++◌, arith,
  ◌==◌, text_key, eq_iff, contains, contains-append,
}
use vault_secrets_operator.Base.Map.{get, has, get-put}
use vault_secrets_operator.Base.Result.{Result, ok}
use vault_secrets_operator.Api.Names.{ObjectKey, object_key}
use vault_secrets_operator.Api.Secret.{ApiError}
use vault_secrets_operator.Api.Destination.{Template}
use vault_secrets_operator.Api.Transformation.{SecretTransformation}
use vault_secrets_operator.Common.Errors.{Error}
use vault_secrets_operator.Common.Metadata.{SyncableSecretMetaData}
use vault_secrets_operator.Helpers.Filter.{KeyedTemplate}
use vault_secrets_operator.Helpers.Templates.Steps.{IsInvariant, gather_from_keeps}
use vault_secrets_operator.Helpers.Templates.{
  Gathered, fail, add_template, gather, gather_templates, insert, sort, cmp_text, start,
}

unfoldable pub names : List KeyedTemplate → List String
names [] = []
names (t ∷ ts) = t.name ∷ names ts

-- No name stands twice.
unfoldable pub are_unique : List String → Bool
are_unique [] = true
are_unique (n ∷ ns) = not (contains n ns) && are_unique ns

names-append : (xs ys : List KeyedTemplate) → names (xs ++ ys) ≡ names xs ++ names ys
unfolding names
names-append [] ys = refl
names-append (x ∷ xs) ys = ground (arith, names-append xs ys)

are_unique-append :
    (n : String) (ns : List String)
    → are_unique (ns ++ (n ∷ [])) ≡ (are_unique ns && not (contains n ns))
unfolding are_unique contains
are_unique-append n [] = refl
are_unique-append n (m ∷ ns) =
    ground (arith, are_unique-append n ns, contains-append m ns (n ∷ []), eq_iff n m, eq_iff m n)

-- The templates have different names, none of them empty, and those are the names that were seen.
record IsGood (s : Gathered) : Type 0 where
  unique : are_unique (names s.keyed) ≡ true
  nonempty : contains "" (names s.keyed) ≡ false
  seen : (n : String) → has n s.seen ≡ contains n (names s.keyed)

fail-IsGood : (e : Error) (s : Gathered) → IsGood s → IsGood (fail e s)
fail-IsGood e s g = record { unique = g.unique; nonempty = g.nonempty; seen = g.seen }

add_template-IsGood :
    (t : Template) (key : String) (s : Gathered) → IsGood s → IsGood (add_template t key s)
unfolding add_template names contains
add_template-IsGood t key s g =
    let x : KeyedTemplate = record { key = key; name = t.name; text = t.text } in
    let more = names-append s.keyed (x ∷ []) in
    record {
      unique =
          ground (arith, more, g.unique, g.seen t.name, are_unique-append t.name (names s.keyed));
      nonempty = ground (arith, more, g.nonempty, contains-append "" (names s.keyed) (t.name ∷ []));
      seen = λ n. ground (
        arith,
        more,
        g.seen n,
        get-put t.name n t s.seen,
        contains-append n (names s.keyed) (t.name ∷ []),
      );
    }

IsGood-IsInvariant : IsInvariant IsGood
IsGood-IsInvariant = record {
  fail = fail-IsGood;
  add = add_template-IsGood;
  patterns =
      λ excludes includes s g. record { unique = g.unique; nonempty = g.nonempty; seen = g.seen };
}

start-IsGood : (meta : SyncableSecretMetaData) → IsGood (start meta)
unfolding start names are_unique contains get
start-IsGood meta = record { unique = refl; nonempty = refl; seen = λ n. refl }

contains-insert :
    (n : String) (x : KeyedTemplate) (ts : List KeyedTemplate)
    → contains n (names (insert cmp_text x ts)) ≡ (x.name == n || contains n (names ts))
unfolding insert names contains
contains-insert n x [] = refl
contains-insert n x (t ∷ ts) = ground (arith, contains-insert n x ts)

are_unique-insert :
    (x : KeyedTemplate) (ts : List KeyedTemplate)
    → are_unique (names (insert cmp_text x ts))
      ≡ (not (contains x.name (names ts)) && are_unique (names ts))
unfolding insert names contains are_unique
are_unique-insert x [] = refl
are_unique-insert x (t ∷ ts) = ground (
  arith,
  are_unique-insert x ts,
  contains-insert t.name x ts,
  eq_iff x.name t.name,
  eq_iff t.name x.name,
)

contains-sort :
    (n : String) (ts : List KeyedTemplate)
    → contains n (names (sort cmp_text ts)) ≡ contains n (names ts)
unfolding sort names contains
contains-sort n [] = refl
contains-sort n (t ∷ ts) =
    ground (arith, contains-insert n t (sort cmp_text ts), contains-sort n ts)

are_unique-sort :
    (ts : List KeyedTemplate) → are_unique (names (sort cmp_text ts)) ≡ are_unique (names ts)
unfolding sort names are_unique
are_unique-sort [] = refl
are_unique-sort (t ∷ ts) =
    ground
      (arith, are_unique-insert t (sort cmp_text ts), are_unique-sort ts, contains-sort t.name ts)

module _ (get_transformation : ObjectKey → Result ApiError SecretTransformation)
    (decimal : ℕ → String) where
  gather-IsGood : (meta : SyncableSecretMetaData) → IsGood (gather get_transformation decimal meta)
  gather-IsGood meta =
      gather_from_keeps IsGood IsGood-IsInvariant get_transformation decimal meta
        (start-IsGood meta)

  -- The templates that are gathered have names, and no two the same: a set of templates takes each
  -- of them, none in place of another.
  pub gather_templates-are_unique :
      (meta : SyncableSecretMetaData) (keyed : List KeyedTemplate) (excludes includes : List String)
      → gather_templates get_transformation decimal meta ≡ ok (keyed, excludes, includes)
      → (are_unique (names keyed) ≡ true) × (contains "" (names keyed) ≡ false)
  unfolding gather_templates
  gather_templates-are_unique meta keyed excludes includes h =
      let good = gather-IsGood meta in
      let s = gather get_transformation decimal meta in
      let sorted : keyed ≡ sort cmp_text s.keyed = ground arith in
      (
        ap (λ l. are_unique (names l)) sorted ∙ (are_unique-sort s.keyed ∙ good.unique),
        ap (λ l. contains "" (names l)) sorted ∙ (contains-sort "" s.keyed ∙ good.nonempty),
      )
