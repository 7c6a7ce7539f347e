-- ===== src/Prelude/Dict/Keys.antt =====
-- The keys of a map in their order, and its values read off by them.
use mathlib.Core.Path.{◌≡◌, refl, sym, ap, ◌∙◌}
use mathlib.Core.Bool.{true, false}
use mathlib.Core.List.{List, [], ◌∷◌}
use mathlib.Core.Option.{Option, none, some}
use native.Mathlib.Omega.{arith}
use mathlib.Core.Logic.{inl, inr}
use wtfoc.Prelude.Tests.{Bool-cases}
use wtfoc.Prelude.Equality.{HasEq, ◌==◌}
use wtfoc.Prelude.Members.{includes, add}
use wtfoc.Prelude.Dict.{Dict, get, set, keys, values}
use wtfoc.Prelude.Dict.Values.{IsMap}

abbrev pub put_some {ℓ} : {V : Type ℓ} → Option V → List V → List V
put_some none vs = vs
put_some (some v) vs = v ∷ vs

-- The values that a function has at some keys.
unfoldable pub gather {ℓ κ} : {K : Type ℓ} {V : Type κ} → (K → Option V) → List K → List V
gather f [] = []
gather f (k ∷ ks) = put_some (f k) (gather f ks)

module _ {ℓ κ} {K : Type ℓ} {V : Type κ} ⦃e : HasEq K⦄ where
  pub keys-set : (k : K) (v : V) (m : Dict K V) → keys (set k v m) ≡ add (keys m) k
  unfolding set
  keys-set k v [] = refl
  keys-set k v ((j, w) ∷ m) = elim (Bool-cases (j == k)) [
    | inl here ↦ rw here refl
    | inr later ↦ rw later (elim (Bool-cases (includes (keys m) k)) [
      | inl known ↦ rw known (ap (λ ks. j ∷ ks) (keys-set k v m ∙ rw known refl))
      | inr new ↦ rw new (ap (λ ks. j ∷ ks) (keys-set k v m ∙ rw new refl))
    ])
  ]

  pub gather-same :
      (f g : K → Option V) (ks : List K)
      → ((k : K) → includes ks k ≡ true → f k ≡ g k)
      → gather f ks ≡ gather g ks
  unfolding gather
  gather-same f g [] h = refl
  gather-same f g (k ∷ ks) h =
      let here : f k ≡ g k = h k (ground (arith, e.same_iff k k)) in
      let rest = gather-same f g ks (λ j i. h j (ground (arith, i))) in
      ap (λ o. put_some o (gather f ks)) here ∙ ap (put_some (g k)) rest

  pub values-gather : (m : Dict K V) → IsMap m → values m ≡ gather (λ k. get k m) (keys m)
  unfolding gather get
  values-gather [] u = refl
  values-gather ((j, v) ∷ m) u =
      let own : (j == j) ≡ true = (e.same_iff j j).1 refl in
      let there : get j ((j, v) ∷ m) ≡ some v = rw own refl in
      let rest =
        values-gather m (ground arith)
        ∙ gather-same (λ k. get k m) (λ k. get k ((j, v) ∷ m)) (keys m) (λ k i. skip-get k i) in
      ap (λ vs. v ∷ vs) rest
      ∙ ap (λ o. put_some o (gather (λ k. get k ((j, v) ∷ m)) (keys m))) (sym there)
    where
      skip-get : (k : K) → includes (keys m) k ≡ true → get k m ≡ get k ((j, v) ∷ m)
      skip-get k i =
          let other : (j == k) ≡ false = ground (arith, i, u, e.same_iff j k) in rw other refl
