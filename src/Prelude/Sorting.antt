-- ===== src/Prelude/Sorting.antt =====
-- `xs.sort(compare)`, which is stable: by a test `before a b` that says that `a` has to stand before
-- `b`, insertion puts each element behind all that it need not precede.
use mathlib.Core.Path.{◌≡◌, refl}
use mathlib.Core.Bool.{Bool, true, false, not, ◌&&◌, ◌||◌}
use mathlib.Core.List.{List, [], ◌∷◌}
use native.Mathlib.Omega.{arith}
use Prim.Native.Nat.{suc}
use wtfoc.Prelude.Tests.{if◌then◌else◌}
use wtfoc.Prelude.Lists.{any, all, length}
use wtfoc.Prelude.Counting.{count}

module _ {ℓ} {A : Type ℓ} (before : A → A → Bool) where
  -- `a` came earlier than all of the list.
  unfoldable pub insert_sorted : A → List A → List A
  insert_sorted a [] = a ∷ []
  insert_sorted a (x ∷ xs) = if before x a then x ∷ insert_sorted a xs else a ∷ x ∷ xs

  unfoldable pub sort : List A → List A
  unfolding insert_sorted
  sort [] = []
  sort (x ∷ xs) = insert_sorted x (sort xs)

  -- No element has to stand before one to its left.
  abbrev pub sorted : List A → Bool
  sorted [] = true
  sorted (x ∷ xs) = all (λ y. not (before y x)) xs && sorted xs

  any-insert_sorted :
      (p : A → Bool) (a : A) (xs : List A) → any p (insert_sorted a xs) ≡ (p a || any p xs)
  unfolding insert_sorted
  any-insert_sorted p a [] = refl
  any-insert_sorted p a (x ∷ xs) = ground (arith, any-insert_sorted p a xs)

  -- Sorting keeps the elements.
  pub any-sort : (p : A → Bool) (xs : List A) → any p (sort xs) ≡ any p xs
  unfolding sort
  any-sort p [] = refl
  any-sort p (x ∷ xs) = ground (arith, any-insert_sorted p x (sort xs), any-sort p xs)

  all-insert_sorted :
      (p : A → Bool) (a : A) (xs : List A) → all p (insert_sorted a xs) ≡ (p a && all p xs)
  unfolding insert_sorted
  all-insert_sorted p a [] = refl
  all-insert_sorted p a (x ∷ xs) = ground (arith, all-insert_sorted p a xs)

  pub all-sort : (p : A → Bool) (xs : List A) → all p (sort xs) ≡ all p xs
  unfolding sort
  all-sort p [] = refl
  all-sort p (x ∷ xs) = ground (arith, all-insert_sorted p x (sort xs), all-sort p xs)

  length-insert_sorted : (a : A) (xs : List A) → length (insert_sorted a xs) ≡ suc (length xs)
  unfolding insert_sorted
  length-insert_sorted a [] = refl
  length-insert_sorted a (x ∷ xs) = ground (arith, length-insert_sorted a xs)

  pub length-sort : (xs : List A) → length (sort xs) ≡ length xs
  unfolding sort
  length-sort [] = refl
  length-sort (x ∷ xs) = ground (arith, length-insert_sorted x (sort xs), length-sort xs)

  count-insert_sorted :
      (p : A → Bool) (a : A) (xs : List A) → count p (insert_sorted a xs) ≡ count p (a ∷ xs)
  unfolding insert_sorted
  count-insert_sorted p a [] = refl
  count-insert_sorted p a (x ∷ xs) = ground (arith, count-insert_sorted p a xs)

  pub count-sort : (p : A → Bool) (xs : List A) → count p (sort xs) ≡ count p xs
  unfolding sort
  count-sort p [] = refl
  count-sort p (x ∷ xs) = ground (arith, count-insert_sorted p x (sort xs), count-sort p xs)

  -- For a strict weak order, sorting sorts.
  module _ (asym : (a b : A) → before a b ≡ true → before b a ≡ false)
      (negtrans : (a b c : A) → before a b ≡ false → before b c ≡ false → before a c ≡ false) where
    all-not_before :
        (a x : A) (xs : List A)
        → before x a ≡ false
        → all (λ y. not (before y x)) xs ≡ true
        → all (λ y. not (before y a)) xs ≡ true
    all-not_before a x [] h all_x = refl
    all-not_before a x (y ∷ ys) h all_x = ground (arith, all-not_before a x ys, negtrans y x a)

    sorted-insert_sorted :
        (a : A) (xs : List A) → sorted xs ≡ true → sorted (insert_sorted a xs) ≡ true
    unfolding insert_sorted
    sorted-insert_sorted a [] h = refl
    sorted-insert_sorted a (x ∷ xs) h = ground (
      arith,
      sorted-insert_sorted a xs,
      all-insert_sorted (λ y. not (before y x)) a xs,
      asym x a,
      all-not_before a x xs,
    )

    pub sorted-sort : (xs : List A) → sorted (sort xs) ≡ true
    unfolding sort
    sorted-sort [] = refl
    sorted-sort (x ∷ xs) = sorted-insert_sorted x (sort xs) (sorted-sort xs)
