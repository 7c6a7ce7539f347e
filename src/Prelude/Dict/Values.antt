-- ===== src/Prelude/Dict/Values.antt =====
-- The values and the keys of a map after a write.
use mathlib.Core.Path.{◌≡◌, refl}
use mathlib.Core.Bool.{Bool, true, false, not, ◌&&◌, ◌||◌}
use mathlib.Core.List.{[], ◌∷◌}
use mathlib.Core.Option.{some}
use native.Mathlib.Omega.{arith}
use mathlib.Core.Logic.{inl, inr}
use wtfoc.Prelude.Tests.{Bool-cases}
use wtfoc.Prelude.Lists.{any}
use wtfoc.Prelude.Equality.{HasEq, ◌==◌}
use wtfoc.Prelude.Members.{includes, distinct}
use wtfoc.Prelude.Dict.{Dict, get, set, delete, has, keys, values}

module _ {ℓ κ} {K : Type ℓ} {V : Type κ} ⦃e : HasEq K⦄ where
  -- No key stands twice, as in every `Map`.
  abbrev pub IsMap : Dict K V → Type 0
  IsMap m = distinct (keys m) ≡ true

  -- Some binding but that of `k` has a value with `p`.
  abbrev pub any_other : K → (V → Bool) → Dict K V → Bool
  any_other k p = any (λ b. not (b.0 == k) && p b.1)

module _ {ℓ κ} {K : Type ℓ} {V : Type κ} ⦃e : HasEq K⦄ where
  pub has-includes : (k : K) (m : Dict K V) → has k m ≡ includes (keys m) k
  unfolding get
  has-includes k [] = refl
  has-includes k ((j, v) ∷ m) = ground (arith, has-includes k m)

  includes-keys-set :
      (k j : K) (v : V) (m : Dict K V)
      → includes (keys (set k v m)) j ≡ (k == j || includes (keys m) j)
  unfolding set
  includes-keys-set k j v [] = refl
  includes-keys-set k j v ((i, w) ∷ m) =
      ground (arith, includes-keys-set k j v m, e.same_iff i k, e.same_iff i j, e.same_iff k j)

  pub set-IsMap : (k : K) (v : V) (m : Dict K V) → IsMap m → IsMap (set k v m)
  unfolding set
  set-IsMap k v [] h = refl
  set-IsMap k v ((i, w) ∷ m) h =
      ground (arith, set-IsMap k v m, includes-keys-set k i v m, e.same_iff i k, e.same_iff k i)

  includes-keys-delete :
      (k j : K) (m : Dict K V)
      → includes (keys (delete k m)) j ≡ (not (j == k) && includes (keys m) j)
  unfolding delete
  includes-keys-delete k j [] = ground arith
  includes-keys-delete k j ((i, w) ∷ m) =
      ground (arith, includes-keys-delete k j m, e.same_iff i k, e.same_iff i j, e.same_iff j k)

  pub delete-IsMap : (k : K) (m : Dict K V) → IsMap m → IsMap (delete k m)
  unfolding delete
  delete-IsMap k [] h = refl
  delete-IsMap k ((i, w) ∷ m) h = ground (arith, delete-IsMap k m, includes-keys-delete k i m)

  any_other-none :
      (k : K) (p : V → Bool) (m : Dict K V)
      → includes (keys m) k ≡ false
      → any_other k p m ≡ any p (values m)
  any_other-none k p [] h = refl
  any_other-none k p ((i, w) ∷ m) h = ground (arith, any_other-none k p m)

  -- In a map, a written value takes the place of the one that stood at its key.
  pub any-values-set :
      (k : K) (v : V) (p : V → Bool) (m : Dict K V)
      → IsMap m
      → any p (values (set k v m)) ≡ (p v || any_other k p m)
  unfolding set
  any-values-set k v p [] h = ground arith
  any-values-set k v p ((i, w) ∷ m) h =
      ground (arith, any-values-set k v p m, any_other-none k p m, e.same_iff i k)

  -- What some value has before a write it has after it, if the written value keeps it.
  pub any-values-set_grows :
      (k : K) (v : V) (p : V → Bool) (m : Dict K V)
      → ((w : V) → get k m ≡ some w → p w ≡ true → p v ≡ true)
      → any p (values m) ≡ true
      → any p (values (set k v m)) ≡ true
  unfolding set get
  any-values-set_grows k v p [] keep h = cc
  any-values-set_grows k v p ((i, w) ∷ m) keep h = elim (Bool-cases (i == k)) [
    | inl same ↦ rw same (ground (arith, keep w))
    | inr other ↦
        rw other (ground (arith, any-values-set_grows k v p m (λ x q. keep x (ground arith))))
  ]
