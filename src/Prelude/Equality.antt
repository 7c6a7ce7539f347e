-- ===== src/Prelude/Equality.antt =====
-- `===`: equality of keys as an interface, for texts and for numbers.
use Prim.Native.Nat.{ℕ}
use Prim.Native.String.{String}
use mathlib.Core.Path.{◌≡◌, refl}
use mathlib.Core.Logic.{◌↔◌, ◌≢◌}
use mathlib.Core.Bool.{Bool, true, false}
use native.Mathlib.Omega.{arith}
use text.Mathlib.Text.{◌==◌ as text_same}
use text.Mathlib.TextEquality.{eq_iff}
use wtfoc.Prelude.Tests.{nat_beq, nat_beq_iff}

-- A type whose values a `Map`, a `Set` or `===` may compare.
pub record HasEq {ℓ} (K : Type ℓ) : Type ℓ where
  pub same : K → K → Bool
  pub same_iff : (x y : K) → (same x y ≡ true) ↔ (x ≡ y)

infix 50 ◌==◌
abbrev pub ◌==◌ {ℓ} : {K : Type ℓ} ⦃h : HasEq K⦄ → K → K → Bool
◌==◌ ⦃h⦄ x y = h.same x y

instance abbrev pub text_has_eq : HasEq String
text_has_eq = record { same = text_same; same_iff = eq_iff }

instance abbrev pub number_has_eq : HasEq ℕ
number_has_eq = record { same = nat_beq; same_iff = nat_beq_iff }

module _ {ℓ} {K : Type ℓ} ⦃h : HasEq K⦄ where
  pub ==_iff : (x y : K) → ((x == y) ≡ true) ↔ (x ≡ y)
  ==_iff x y = h.same_iff x y

  pub ==_refl : (x : K) → (x == x) ≡ true
  ==_refl x = (h.same_iff x x).1 refl

  pub ==-false : (x y : K) → x ≢ y → (x == y) ≡ false
  ==-false x y d = ground (arith, h.same_iff x y)
