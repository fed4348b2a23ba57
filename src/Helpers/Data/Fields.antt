-- ===== src/Helpers/Data/Fields.antt =====
-- What stands under each key of the data of a destination Secret.
use vault_secrets_operator.Base.{
  ◌≡◌, inl, inr, refl, String, Bool, false, not, ◌&&◌, ◌||◌, Option, none, some, [], ◌∷◌, arith,
  ◌==◌, text_key, eq_iff, if◌then◌else◌, or_else, is_some,
}
use vault_secrets_operator.Base.Map.{Map, get, put, has, copy_into, get-copy_into, get-put}
use vault_secrets_operator.Base.Result.{Result, ok, err, Result-cases}
use vault_secrets_operator.Api.Secret.{Bytes}
use vault_secrets_operator.Common.Errors.{Error}
use vault_secrets_operator.Helpers.Filter.{SecretTransformationOption, filter_data}
use vault_secrets_operator.Helpers.Filter.Passes.{passes, get-filter_data}
use vault_secrets_operator.Helpers.Data.{
  Value, raw_key, marshal_json, add_fields, start_data, make_k8s_data,
}

module _ {J : Type 0} (marshal : J → Result Error Bytes)
    (match_field : String → String → Result Error Bool) where
  -- The bytes of a field, where it is one and has an encoding.
  unfoldable pub encoded : Option (Value J) → Option Bytes
  encoded none = none
  encoded (some v) = elim (marshal_json marshal match_field v) [ ok b ↦ some b | err _ ↦ none ]

  get-add_fields :
      (k : String) (d : Map String (Value J)) (contents r : Map String Bytes)
      → add_fields marshal match_field d contents ≡ ok r
      → get k r ≡ or_else (get k contents) (encoded (get k d))
  unfolding add_fields get encoded
  get-add_fields k [] contents r h = ground arith
  get-add_fields k ((j, v) ∷ d) contents r h =
      elim (Result-cases (marshal_json marshal match_field v)) [
        | inl (x, e) ↦ ground (arith, get-add_fields k d contents r, eq_iff j k)
        | inr (b, e) ↦ ground (
          arith,
          get-add_fields k d contents r,
          get-add_fields k d (put j b contents) r,
          get-put j k b contents,
          eq_iff j k,
        )
      ]

  encoded_none : encoded none ≡ none
  unfolding encoded
  encoded_none = refl

  -- Where a field is not in the data yet, it has an encoding.
  add_fields-encoded :
      (k : String) (d : Map String (Value J)) (contents r : Map String Bytes)
      → add_fields marshal match_field d contents ≡ ok r
      → is_some (get k r) ≡ (has k contents || has k d)
  unfolding add_fields get
  add_fields-encoded k [] contents r h = ground arith
  add_fields-encoded k ((j, v) ∷ d) contents r h =
      elim (Result-cases (marshal_json marshal match_field v)) [
        | inl (x, e) ↦ ground (arith, add_fields-encoded k d contents r, eq_iff j k)
        | inr (b, e) ↦ ground (
          arith,
          add_fields-encoded k d contents r,
          add_fields-encoded k d (put j b contents) r,
          get-put j k b contents,
          eq_iff j k,
        )
      ]

  start_data-ok :
      (k : String) (d : Map String (Value J)) (extra start : Map String Bytes) (raw : Bytes)
      (opt : SecretTransformationOption)
      → start_data marshal match_field d extra raw opt ≡ ok start
      → get k start ≡ (if not opt.exclude_raw && raw_key == k then some raw else none)
  unfolding start_data get
  start_data-ok k d extra start raw opt h = ground (arith, get-put raw_key k raw [])

  start_data-none :
      (d : Map String (Value J)) (extra start : Map String Bytes) (raw : Bytes)
      (opt : SecretTransformationOption)
      → start_data marshal match_field d extra raw opt ≡ ok start
      → opt.exclude_raw ≡ false
      → (has raw_key d ≡ false) × (has raw_key extra ≡ false)
  unfolding start_data
  start_data-none d extra start raw opt h n = ground arith

  -- If the data of a Secret is made, a template's output stands under its key; under a key without
  -- one stands the raw response, if it is not left out and the key is "_raw", and else the encoding
  -- of the field of that name, if there is one that passes the filters. The raw response never
  -- replaces a field or an output, and each field that passes has an encoding.
  pub get-make_k8s_data :
      (k : String) (d : Map String (Value J)) (extra m : Map String Bytes) (raw : Bytes)
      (opt : SecretTransformationOption)
      → make_k8s_data marshal match_field d extra raw opt ≡ ok m
      → (get k m
          ≡ or_else (get k extra) (
              if not opt.exclude_raw && raw_key == k
              then some raw
              else if passes match_field opt k
              then encoded (get k d)
              else none))
        × (is_some (get k m) ≡ (
            has k extra
            || ((not opt.exclude_raw && raw_key == k) || (passes match_field opt k && has k d))))
        × (opt.exclude_raw ≡ false → (has raw_key d ≡ false) × (has raw_key extra ≡ false))
  unfolding make_k8s_data
  get-make_k8s_data k d extra m raw opt h =
      elim (Result-cases (start_data marshal match_field d extra raw opt)) [
        | inl (x, e) ↦ absurd (ground arith)
        | inr (start, e) ↦ elim (Result-cases (filter_data match_field (some opt) d)) [
          | inl (x, f) ↦ absurd (ground arith)
          | inr (kept, f) ↦
              let base = copy_into extra start in
              let read = get-copy_into k extra start in
              let from = start_data-ok k d extra start raw opt e in
              let fields = get-filter_data match_field opt d kept k f in
              (
                ground (arith, read, from, fields, encoded_none, get-add_fields k kept base m),
                ground (arith, read, from, fields, add_fields-encoded k kept base m),
                start_data-none d extra start raw opt e,
              )
        ]
      ]
