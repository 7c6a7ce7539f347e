-- ===== src/Prelude/Text.antt =====
-- Texts that the program takes apart: the list of the UTF-16 code units, as JavaScript has them, with
-- the string methods that the program calls. A native string is read as a text of characters of one unit.
use Prim.Native.Nat.{ℕ, ◌+◌}
use Prim.Native.Char.{code}
use Prim.Native.String.{String}
use mathlib.Core.Path.{◌≡◌, refl}
use mathlib.Core.Logic.{◌↔◌}
use mathlib.Core.Bool.{Bool, true, false, ◌&&◌, ◌||◌}
use mathlib.Core.Option.{Option, none, some}
use mathlib.Core.List.{List, [], ◌∷◌, ◌++◌}
use native.Mathlib.Omega.{arith}
use wtfoc.Prelude.Tests.{ltb, leb, nat_beq, if◌then◌else◌}
use wtfoc.Prelude.Equality.{HasEq}

abbrev pub Text : Type 0
Text = List ℕ

-- The units of a literal.
abbrev pub units : String → Text
units String.[] = []
units (String.◌∷◌ c s) = code c ∷ units s

abbrev pub same_units : Text → Text → Bool
same_units [] [] = true
same_units [] (d ∷ t) = false
same_units (c ∷ s) [] = false
same_units (c ∷ s) (d ∷ t) = nat_beq c d && same_units s t

pub same_units_iff : (s t : Text) → (same_units s t ≡ true) ↔ (s ≡ t)
same_units_iff [] [] = (λ h. refl, λ h. refl)
same_units_iff [] (d ∷ t) = (λ h. cc, λ h. cc)
same_units_iff (c ∷ s) [] = (λ h. cc, λ h. cc)
same_units_iff (c ∷ s) (d ∷ t) =
    (λ h. ground (arith, same_units_iff s t), λ h. ground (arith, same_units_iff s t))

instance abbrev pub units_have_eq : HasEq Text
units_have_eq = record { same = same_units; same_iff = same_units_iff }

-- `s.startsWith(p)`
unfoldable pub starts_with : Text → Text → Bool
starts_with s [] = true
starts_with [] (d ∷ p) = false
starts_with (c ∷ s) (d ∷ p) = nat_beq c d && starts_with s p

-- `s.includes(p)`
unfoldable pub contains : Text → Text → Bool
unfolding starts_with
contains [] p = starts_with [] p
contains (c ∷ s) p = starts_with (c ∷ s) p || contains s p

-- `s.slice(s.indexOf("/") + 1)`, if there is a slash
unfoldable pub after_slash : Text → Option Text
after_slash [] = none
after_slash (c ∷ s) = if nat_beq c b'/' then some s else after_slash s

-- `s.split("/")` as the first part and the others
unfoldable pub split_slash : Text → Text × List Text
split_slash [] = ([], [])
split_slash (c ∷ s) =
    let (part, parts) = split_slash s in
    if nat_beq c b'/' then ([], part ∷ parts) else (c ∷ part, parts)

-- `parts.join("/")`
unfoldable pub join_slash : List Text → Text
join_slash [] = []
join_slash (p ∷ []) = p
join_slash (p ∷ q ∷ ps) = p ++ b'/' ∷ join_slash (q ∷ ps)

-- What follows a prefix in lower case, whatever the case of its letters.
unfoldable pub strip_prefix : Text → Text → Option Text
strip_prefix [] s = some s
strip_prefix (d ∷ p) [] = none
strip_prefix (d ∷ p) (c ∷ s) =
    if nat_beq (if leb b'A' c && leb c b'Z' then c + 32 else c) d then strip_prefix p s else none

-- What stands before a suffix.
unfoldable pub strip_suffix : Text → Text → Option Text
strip_suffix p [] = if same_units [] p then some [] else none
strip_suffix p (c ∷ s) =
    let rest = strip_suffix p s in
    if same_units (c ∷ s) p then some [] else elim rest [ none ↦ none | some t ↦ some (c ∷ t) ]

-- `s < t`
unfoldable pub text_ltb : Text → Text → Bool
text_ltb s [] = false
text_ltb [] (d ∷ t) = true
text_ltb (c ∷ s) (d ∷ t) = ltb c d || (nat_beq c d && text_ltb s t)

-- `s.split(".").pop()`: what follows the last dot, or all.
unfoldable pub after_last_dot : Text → Text → Text
after_last_dot part [] = part
after_last_dot part (c ∷ s) = after_last_dot (if nat_beq c b'.' then [] else part ++ c ∷ []) s
