-- ===== src/Prelude/Dict.antt =====
-- JavaScript's `Map`, and an object used as one: an association list in the order of insertion.
-- `set` of a key that is there keeps its place, `delete` removes it.
use mathlib.Core.Path.{◌≡◌, refl}
pub mod Values
pub mod Keys
use mathlib.Core.Bool.{Bool, not, ◌&&◌, ◌||◌}
use mathlib.Core.List.{List, [], ◌∷◌, map}
use mathlib.Core.Option.{Option, none, some}
use native.Mathlib.Omega.{arith}
use wtfoc.Prelude.Tests.{if◌then◌else◌, is_some}
use wtfoc.Prelude.Equality.{HasEq, ◌==◌}

abbrev pub Dict {ℓ κ} : Type ℓ → Type κ → Type (ℓ ⊔ κ)
Dict K V = List (K × V)

module _ {ℓ κ} {K : Type ℓ} {V : Type κ} ⦃e : HasEq K⦄ where
  unfoldable pub get : K → Dict K V → Option V
  get k [] = none
  get k ((j, v) ∷ m) = if j == k then some v else get k m

  unfoldable pub set : K → V → Dict K V → Dict K V
  set k v [] = (k, v) ∷ []
  set k v ((j, w) ∷ m) = if j == k then (j, v) ∷ m else (j, w) ∷ set k v m

  unfoldable pub delete : K → Dict K V → Dict K V
  delete k [] = []
  delete k ((j, v) ∷ m) = let rest = delete k m in if j == k then rest else (j, v) ∷ rest

  abbrev pub has : K → Dict K V → Bool
  has k m = is_some (get k m)

module _ {ℓ κ} {K : Type ℓ} {V : Type κ} where
  abbrev pub keys : Dict K V → List K
  keys = map (λ p. p.0)

  abbrev pub values : Dict K V → List V
  values = map (λ p. p.1)

module _ {ℓ κ} {K : Type ℓ} {V : Type κ} ⦃e : HasEq K⦄ where
  pub get-set :
      (j k : K) (v : V) (m : Dict K V) → get j (set k v m) ≡ (if k == j then some v else get j m)
  unfolding get set
  get-set j k v [] = refl
  get-set j k v ((i, w) ∷ m) =
      ground (arith, get-set j k v m, e.same_iff k j, e.same_iff i k, e.same_iff i j)

  pub get-delete :
      (j k : K) (m : Dict K V) → get j (delete k m) ≡ (if k == j then none else get j m)
  unfolding get delete
  get-delete j k [] = ground arith
  get-delete j k ((i, w) ∷ m) =
      ground (arith, get-delete j k m, e.same_iff k j, e.same_iff i k, e.same_iff i j)

  -- The later of two writes to a key is the one that counts.
  pub set-set : (k : K) (v w : V) (m : Dict K V) → set k w (set k v m) ≡ set k w m
  unfolding set
  set-set k v w [] = ground (arith, e.same_iff k k)
  set-set k v w ((i, x) ∷ m) = ground (arith, set-set k v w m)

  pub has-set : (j k : K) (v : V) (m : Dict K V) → has j (set k v m) ≡ (k == j || has j m)
  has-set j k v m = ground (arith, get-set j k v m)

  pub has-delete : (j k : K) (m : Dict K V) → has j (delete k m) ≡ (not (k == j) && has j m)
  has-delete j k m = ground (arith, get-delete j k m)
