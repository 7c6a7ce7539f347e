-- ===== src/Prelude/Members.antt =====
-- Membership as a test: `xs.includes(a)`, and a `Set` as the list of its members in the order of
-- their insertion.
use mathlib.Core.Path.{◌≡◌, refl}
use mathlib.Core.Bool.{Bool, true, false, not, ◌&&◌, ◌||◌}
use mathlib.Core.List.{List, [], ◌∷◌, ◌++◌}
use native.Mathlib.Omega.{arith}
use wtfoc.Prelude.Tests.{if◌then◌else◌}
use wtfoc.Prelude.Lists.{filter}
use wtfoc.Prelude.Equality.{HasEq, ◌==◌}

module _ {ℓ} {A : Type ℓ} ⦃e : HasEq A⦄ where
  abbrev pub includes : List A → A → Bool
  includes [] a = false
  includes (x ∷ xs) a = x == a || includes xs a

  -- `set.add(a)`
  abbrev pub add : List A → A → List A
  add xs a = if includes xs a then xs else xs ++ a ∷ []

  -- `for (const a of ys) set.add(a)`; from `[]` it is `new Set(ys)`
  abbrev pub add_all : List A → List A → List A
  add_all xs [] = xs
  add_all xs (y ∷ ys) = add_all (add xs y) ys

  -- No member stands twice.
  abbrev pub distinct : List A → Bool
  distinct [] = true
  distinct (x ∷ xs) = not (includes xs x) && distinct xs

module _ {ℓ} {A : Type ℓ} ⦃e : HasEq A⦄ where
  pub includes-append :
      (xs ys : List A) (a : A) → includes (xs ++ ys) a ≡ (includes xs a || includes ys a)
  includes-append [] ys a = refl
  includes-append (x ∷ xs) ys a = ground (arith, includes-append xs ys a)

  pub includes-add : (xs : List A) (b a : A) → includes (add xs b) a ≡ (includes xs a || b == a)
  includes-add xs b a = ground (arith, includes-append xs (b ∷ []) a, e.same_iff b a)

  pub includes-add_all :
      (xs ys : List A) (a : A) → includes (add_all xs ys) a ≡ (includes xs a || includes ys a)
  includes-add_all xs [] a = ground arith
  includes-add_all xs (y ∷ ys) a =
      ground (arith, includes-add_all (add xs y) ys a, includes-add xs y a)

  pub includes-filter :
      (p : A → Bool) (xs : List A) (a : A) → includes (filter p xs) a ≡ (includes xs a && p a)
  includes-filter p [] a = refl
  includes-filter p (x ∷ xs) a = ground (arith, includes-filter p xs a, e.same_iff x a)

  distinct-append_one :
      (xs : List A) (a : A)
      → includes xs a ≡ false
      → distinct xs ≡ true
      → distinct (xs ++ a ∷ []) ≡ true
  distinct-append_one [] a h d = refl
  distinct-append_one (x ∷ xs) a h d = ground (
    arith,
    distinct-append_one xs a,
    includes-append xs (a ∷ []) x,
    e.same_iff x a,
    e.same_iff a x,
  )

  pub distinct-add : (xs : List A) (a : A) → distinct xs ≡ true → distinct (add xs a) ≡ true
  distinct-add xs a d = ground (arith, distinct-append_one xs a)

  pub distinct-add_all : (xs ys : List A) → distinct xs ≡ true → distinct (add_all xs ys) ≡ true
  distinct-add_all xs [] d = d
  distinct-add_all xs (y ∷ ys) d = distinct-add_all (add xs y) ys (distinct-add xs y d)

  -- A filter whose test refuses every member leaves nothing.
  pub filter-none :
      (p : A → Bool) (xs : List A)
      → ((a : A) → includes xs a ≡ true → p a ≡ false)
      → filter p xs ≡ []
  filter-none p [] h = refl
  filter-none p (x ∷ xs) h =
      ground (arith, h x, e.same_iff x x, filter-none p xs (λ a m. h a (ground arith)))
