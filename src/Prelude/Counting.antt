-- ===== src/Prelude/Counting.antt =====
-- How many elements of a list, or values of a map, pass a test.
use Prim.Native.Nat.{ℕ, ◌+◌, ◌≤◌}
use mathlib.Core.Path.{◌≡◌}
use mathlib.Core.Logic.{inl, inr}
use mathlib.Core.Bool.{Bool, true, false}
use mathlib.Core.List.{List, [], ◌∷◌}
use mathlib.Core.Option.{some}
use native.Mathlib.Omega.{arith}
use wtfoc.Prelude.Tests.{if◌then◌else◌, Bool-cases}
use wtfoc.Prelude.Equality.{HasEq, ◌==◌}
use wtfoc.Prelude.Dict
use wtfoc.Prelude.Dict.{Dict}

abbrev pub count {ℓ} : {A : Type ℓ} → (A → Bool) → List A → ℕ
count p [] = 0
count p (x ∷ xs) = (if p x then 1 else 0) + count p xs

module _ {ℓ κ} {K : Type ℓ} {V : Type κ} ⦃e : HasEq K⦄ where
  -- A value that fails the test adds nothing.
  pub count-set_fails :
      (k : K) (v : V) (p : V → Bool) (m : Dict K V)
      → p v ≡ false
      → count p (Dict.values (Dict.set k v m)) ≤ count p (Dict.values m)
  unfolding Dict.set
  count-set_fails k v p [] h = ground arith
  count-set_fails k v p ((i, w) ∷ m) h = ground (arith, count-set_fails k v p m)

  -- A value adds at most one.
  pub count-set_le :
      (k : K) (v : V) (p : V → Bool) (m : Dict K V)
      → count p (Dict.values (Dict.set k v m)) ≤ count p (Dict.values m) + 1
  unfolding Dict.set
  count-set_le k v p [] = ground arith
  count-set_le k v p ((i, w) ∷ m) = ground (arith, count-set_le k v p m)

  -- Nor does a value whose test the old one passed.
  pub count-set_kept :
      (k : K) (v w : V) (p : V → Bool) (m : Dict K V)
      → Dict.get k m ≡ some w
      → (p v ≡ true → p w ≡ true)
      → count p (Dict.values (Dict.set k v m)) ≤ count p (Dict.values m)
  unfolding Dict.set Dict.get
  count-set_kept k v w p [] there keep = cc
  count-set_kept k v w p ((i, x) ∷ m) there keep = elim (Bool-cases (i == k)) [
    | inl same ↦ ground arith
    | inr other ↦ ground (arith, count-set_kept k v w p m)
  ]
