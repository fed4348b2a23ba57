-- ===== src/Base/Keys.antt =====
-- Types whose values Go compares by `==`, as map keys and in guards.
use Prim.Native.Nat.{ℕ}
use Prim.Native.String.{String}
use mathlib.Core.Path.{◌≡◌, refl}
use mathlib.Core.Logic.{◌↔◌, ◌≢◌}
use mathlib.Core.Bool.{Bool, true, false, ◌&&◌}
use mathlib.Core.List.{List, [], ◌∷◌}
use native.Mathlib.Omega.{arith}
use text.Mathlib.Text.{◌==◌ as str_eq}
use text.Mathlib.TextEquality.{eq_iff}
use vault_secrets_operator.Base.Tests.{nat_eq, nat_eq_iff}

pub record Key (K : Type 0) : Type 0 where
  pub same : K → K → Bool
  pub same_iff : (a b : K) → (same a b ≡ true) ↔ (a ≡ b)

infix 50 ◌==◌
abbrev pub ◌==◌ : {K : Type 0} ⦃e : Key K⦄ → K → K → Bool
◌==◌ ⦃e⦄ = e.same

instance abbrev pub nat_key : Key ℕ
nat_key = record { same = nat_eq; same_iff = nat_eq_iff }

instance abbrev pub text_key : Key String
text_key = record { same = str_eq; same_iff = eq_iff }

module _ {K : Type 0} ⦃e : Key K⦄ where
  pub ==_refl : (a : K) → (a == a) ≡ true
  ==_refl a = (e.same_iff a a).1 refl

  pub ==_ne : (a b : K) → a ≢ b → (a == b) ≡ false
  ==_ne a b h = ground (arith, e.same_iff a b)

unfoldable pub same_bytes : List ℕ → List ℕ → Bool
same_bytes [] [] = true
same_bytes (a ∷ xs) (b ∷ bs) = nat_eq a b && same_bytes xs bs
same_bytes _ _ = false

pub bytes-same_iff : (a b : List ℕ) → (same_bytes a b ≡ true) ↔ (a ≡ b)
unfolding same_bytes
bytes-same_iff [] [] = ground arith
bytes-same_iff [] (b ∷ bs) = ground arith
bytes-same_iff (a ∷ xs) [] = ground arith
bytes-same_iff (a ∷ xs) (b ∷ bs) = ground (arith, bytes-same_iff xs bs)

instance unfoldable pub bytes_key : Key (List ℕ)
unfolding same_bytes
bytes_key = record { same = same_bytes; same_iff = bytes-same_iff }
