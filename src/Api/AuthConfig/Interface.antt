-- ===== src/Api/AuthConfig/Interface.antt =====
-- What the five auth method configurations have in common, and their merge.
use vault_secrets_operator.Base.{◌≡◌, List, [], ◌∷◌, String, Option, none, some, refl}
use vault_secrets_operator.Base.Result.{Result, ok, err}
use vault_secrets_operator.Api.AuthConfig.{list_or}

-- `fill a b` takes from `b` what `a` leaves empty.
pub record AuthConfig (C : Type 0) : Type 0 where
  pub validate : C → Option String
  pub fill : C → C → C
  pub validate_fill : (a b : C) → validate a ≡ none → validate (fill a b) ≡ none
  pub validate_fill_other : (a b : C) → validate b ≡ none → validate (fill a b) ≡ none
  pub fill_self : (a : C) → fill a a ≡ a
  pub fill_assoc : (a b c : C) → fill (fill a b) c ≡ fill a (fill b c)

pub list_or_self : (a : List String) → list_or a a ≡ a
list_or_self [] = refl
list_or_self (x ∷ xs) = refl

pub list_or_assoc : (a b c : List String) → list_or (list_or a b) c ≡ list_or a (list_or b c)
list_or_assoc [] b c = refl
list_or_assoc (x ∷ xs) b c = refl

-- `Merge` of every configuration ends with the validation of the copy it filled.
unfoldable pub merge : {C : Type 0} ⦃e : AuthConfig C⦄ → C → C → Result String C
merge ⦃e⦄ a other = elim (e.validate (e.fill a other)) [
  | none ↦ ok (e.fill a other)
  | some x ↦ err x
]
