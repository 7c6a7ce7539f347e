-- ===== src/Store/Keyed.antt =====
-- packages/store/src/diff.ts: the maps by id, and what the lists of a diff hold of an id.
use wtfoc.Prelude.{
  String, Bool, true, false, not, ◌&&◌, Option, none, some, inl, inr, List, [], ◌∷◌, ◌++◌, ◌==◌,
  ◌≡◌, refl, sym, all, is_some, if◌then◌else◌, Bool-cases, text_has_eq, arith,
}
use wtfoc.Prelude.Dict
use wtfoc.Prelude.Dict.{Dict}
use wtfoc.Prelude.Dict.Values.{IsMap, set-IsMap, has-includes}
use wtfoc.Store.{ArtifactSummaryEntry}
use wtfoc.Store.Diff.{ArtifactMap, map_by_id, find_by_id}

-- Each entry stands under its own id.
abbrev pub Keyed : ArtifactMap → Type 0
Keyed m = all (λ b. b.1.artifact_id == b.0) m ≡ true

pub set-Keyed :
    (e : ArtifactSummaryEntry) (m : ArtifactMap) → Keyed m → Keyed (Dict.set e.artifact_id e m)
unfolding Dict.set
set-Keyed e [] h = ground (arith, text_has_eq.same_iff e.artifact_id e.artifact_id)
set-Keyed e ((j, x) ∷ m) h = ground (
  arith,
  set-Keyed e m,
  text_has_eq.same_iff j e.artifact_id,
  text_has_eq.same_iff e.artifact_id j,
)

pub map_by_id-Keyed :
    (m : ArtifactMap) (ss : List ArtifactSummaryEntry)
    → Keyed m
    → IsMap m
    → Keyed (map_by_id m ss) × IsMap (map_by_id m ss)
unfolding map_by_id
map_by_id-Keyed m [] k u = (k, u)
map_by_id-Keyed m (s ∷ ss) k u =
    map_by_id-Keyed (Dict.set s.artifact_id s m) ss (set-Keyed s m k)
      (set-IsMap s.artifact_id s m u)

pub get-Keyed :
    (id : String) (m : ArtifactMap) (e : ArtifactSummaryEntry)
    → Keyed m
    → Dict.get id m ≡ some e
    → (e.artifact_id == id) ≡ true
unfolding Dict.get
get-Keyed id [] e k h = absurd (cc h)
get-Keyed id ((j, x) ∷ m) e k h = elim (Bool-cases (j == id)) [
  | inl here ↦
      let same : x ≡ e = cc (rw here at h) in
      let own : (x.artifact_id == j) ≡ true = ground arith in
      rw (sym same) (rw (sym ((text_has_eq.same_iff j id).0 here)) own)
  | inr later ↦ get-Keyed id m e (ground arith) (rw later at h)
]

abbrev pub first_of :
    Option ArtifactSummaryEntry → Option ArtifactSummaryEntry → Option ArtifactSummaryEntry
first_of none b = b
first_of (some a) b = some a

pub first_of-none : (a : Option ArtifactSummaryEntry) → first_of a none ≡ a
first_of-none none = refl
first_of-none (some a) = refl

pub is_some-none : (a : Option ArtifactSummaryEntry) → is_some a ≡ false → a ≡ none
is_some-none none h = refl
is_some-none (some a) h = absurd (cc h)

-- The key of the first binding stands nowhere else.
pub get-tail :
    (j : String) (e : ArtifactSummaryEntry) (m : ArtifactMap)
    → IsMap ((j, e) ∷ m)
    → Dict.get j m ≡ none
get-tail j e m u = is_some-none (Dict.get j m) (ground (arith, has-includes j m))

pub find_by_id-append :
    (id : String) (xs ys : List ArtifactSummaryEntry)
    → find_by_id id (xs ++ ys) ≡ first_of (find_by_id id xs) (find_by_id id ys)
unfolding find_by_id
find_by_id-append id [] ys = refl
find_by_id-append id (x ∷ xs) ys = elim (Bool-cases (x.artifact_id == id)) [
  | inl here ↦ rw here refl
  | inr later ↦ rw later (find_by_id-append id xs ys)
]

abbrev pub is_changed : Option ArtifactSummaryEntry → ArtifactSummaryEntry → Bool
is_changed none e = true
is_changed (some l) e = not (l.content_identity == e.content_identity)

-- What the two loops make of an id.
abbrev pub new_entry :
    Option ArtifactSummaryEntry → Option ArtifactSummaryEntry → Option ArtifactSummaryEntry
new_entry l none = none
new_entry l (some e) = if is_changed l e then some e else none

abbrev pub is_replaced : Option ArtifactSummaryEntry → Option ArtifactSummaryEntry → Bool
is_replaced l none = false
is_replaced l (some e) = is_some l && is_changed l e

abbrev pub no_entry : Option ArtifactSummaryEntry
no_entry = none

pub if_none : (b : Bool) → (if b then none else none) ≡ no_entry
if_none true = refl
if_none false = refl
