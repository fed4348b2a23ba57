-- ===== src/Helpers/Filter/Passes.antt =====
-- Which fields pass the filters.
use vault_secrets_operator.Base.{
  ◌≡◌, String, Bool, true, false, ◌&&◌, ◌||◌, not, none, some, List, [], ◌∷◌, arith, text_key,
  eq_iff, if◌then◌else◌, is_some, or_else, ◌==◌, Option-cases, inl, inr,
}
use vault_secrets_operator.Base.Map.{Map, get, delete, get-put, get-delete}
use vault_secrets_operator.Base.Result.{Result, ok, err, Result-cases}
use vault_secrets_operator.Common.Errors.{Error}
use vault_secrets_operator.Helpers.Filter.{
  SecretTransformationOption, first_match, filter_fields, filter, copy_field, exclude, include,
  filter_data,
}

module _ (match_field : String → String → Result Error Bool) where
  unfoldable pub is_match : String → String → Bool
  is_match pat k = elim (match_field pat k) [ ok b ↦ b | err _ ↦ false ]

  unfoldable pub matches_any : List String → String → Bool
  matches_any [] k = false
  matches_any (pat ∷ pats) k = is_match pat k || matches_any pats k

  unfoldable pub is_included : List String → String → Bool
  is_included [] k = true
  is_included (pat ∷ pats) k = matches_any (pat ∷ pats) k

  -- A field passes if no pattern excludes it and, where there are patterns to include, one of them
  -- includes it.
  unfoldable pub passes : SecretTransformationOption → String → Bool
  passes opt k = not (matches_any opt.excludes k) && is_included opt.includes k

  first_match-ok :
      (pats : List String) (k : String) (b : Bool)
      → first_match match_field pats k ≡ ok b
      → b ≡ matches_any pats k
  unfolding first_match matches_any is_match
  first_match-ok [] k b h = ground arith
  first_match-ok (pat ∷ pats) k b h = ground (arith, first_match-ok pats k b)

  module _ {V : Type 0} where
    get-copy_field :
        (k j : String) (d m : Map String V)
        → get k (copy_field match_field d j m)
          ≡ (if j == k then or_else (get k d) (get k m) else get k m)
    unfolding copy_field
    get-copy_field k j d m = elim (Option-cases (get j d)) [
      | inl e ↦ ground (arith, eq_iff j k)
      | inr (v, e) ↦ ground (arith, eq_iff j k, get-put j k v m)
    ]

    excluded-get :
        (k : String) (data0 d m r : Map String V) (pats : List String)
        → filter_fields match_field d pats
            (λ matched k m. if matched then m else copy_field match_field data0 k m)
            m
          ≡ ok r
        → get k r ≡ (
            if is_some (get k d) && not (matches_any pats k)
            then or_else (get k data0) (get k m)
            else get k m)
    unfolding filter_fields copy_field get
    excluded-get k data0 [] m r pats h = ground arith
    excluded-get k data0 ((j, v) ∷ d) m r pats h =
        elim (Result-cases (first_match match_field pats j)) [
          | inl (x, e) ↦ absurd (ground arith)
          | inr (b, e) ↦
              let m2 : Map String V = if b then m else copy_field match_field data0 j m in
              ground (
                arith,
                first_match-ok pats j b e,
                excluded-get k data0 d m2 r pats,
                get-copy_field k j data0 m,
                eq_iff j k,
              )
        ]

    deleted-get :
        (k : String) (d m r : Map String V) (pats : List String)
        → filter_fields match_field d pats (λ matched k m. if matched then m else delete k m) m
          ≡ ok r
        → get k r ≡ (if is_some (get k d) && not (matches_any pats k) then none else get k m)
    unfolding filter_fields get
    deleted-get k [] m r pats h = ground arith
    deleted-get k ((j, v) ∷ d) m r pats h = elim (Result-cases (first_match match_field pats j)) [
      | inl (x, e) ↦ absurd (ground arith)
      | inr (b, e) ↦
          let m2 : Map String V = if b then m else delete j m in
          ground (
            arith,
            first_match-ok pats j b e,
            deleted-get k d m2 r pats,
            get-delete j k m,
            eq_iff j k,
          )
    ]

    get-exclude :
        (pats : List String) (d r : Map String V) (k : String)
        → exclude match_field pats d ≡ ok r
        → get k r ≡ (if matches_any pats k then none else get k d)
    unfolding exclude filter matches_any get
    get-exclude [] d r k h = ground arith
    get-exclude (pat ∷ pats) d r k h = ground (arith, excluded-get k d d [] r (pat ∷ pats))

    get-include :
        (pats : List String) (m r : Map String V) (k : String)
        → include match_field pats m ≡ ok r
        → get k r ≡ (if is_included pats k then get k m else none)
    unfolding include filter is_included
    get-include [] m r k h = ground arith
    get-include (pat ∷ pats) m r k h = ground (arith, deleted-get k m m r (pat ∷ pats))

    -- Filtering keeps the fields that pass, with their values, and no others.
    pub get-filter_data :
        (opt : SecretTransformationOption) (d m : Map String V) (k : String)
        → filter_data match_field (some opt) d ≡ ok m
        → get k m ≡ (if passes opt k then get k d else none)
    unfolding filter_data passes
    get-filter_data opt d m k h = elim (Result-cases (exclude match_field opt.excludes d)) [
      | inl (x, e) ↦ absurd (ground arith)
      | inr (kept, e) ↦
          ground (arith, get-exclude opt.excludes d kept k e, get-include opt.includes kept m k)
    ]
