-- ===== src/Chunker.antt =====
-- packages/ingest/src/chunker.ts: where a text is cut, and the ids of the pieces. `sha` stands for
-- `sha256Hex`. A position is an index of a code unit.
pub mod Markdown
pub mod Rechunk
pub mod Bounds
pub mod Covers
pub mod Pieces
mod Examples
use wtfoc.Prelude.{
  ℕ, zero, suc, ◌+◌, ◌-◌, ◌/◌, ◌%◌, min, String, Bool, true, false, not, ◌&&◌, ◌||◌, Option, none,
  some, List, [], ◌∷◌, ◌++◌, ◌≡◌, refl, get_elem?, slice, length, leb, ltb, nat_beq, or_else,
  if◌then◌else◌,
}
use wtfoc.Prelude.Text.{Text, units}
use wtfoc.Schema.{truthy}

-- The decimal digits of a number, before `out`. More rounds than the number are enough.
unfoldable pub put_digits : ℕ → ℕ → Text → Text
put_digits zero n out = out
put_digits (suc rounds) n out =
    let rest = put_digits rounds (n / 10) ((b'0' + n % 10) ∷ out) in
    if ltb n 10 then (b'0' + n) ∷ out else rest

-- A number in a template string.
abbrev pub decimal : ℕ → Text
unfolding put_digits
decimal n = put_digits (suc n) n []

unfoldable pub compute_chunk_id :
    (Text → String) → Text → ℕ → Option String → Option String → String
compute_chunk_id sha content chunk_index document_id document_version_id =
    if truthy document_id && truthy document_version_id
    then sha (
        units (or_else document_id "")
        ++ (units ":"
            ++ (units (or_else document_version_id "")
                ++ (units ":" ++ (decimal chunk_index ++ (units ":" ++ content))))))
    else sha content

unfoldable pub clamp_overlap : ℕ → ℕ → ℕ
clamp_overlap overlap chunk_size = if leb chunk_size 1 then 0 else min overlap (chunk_size - 1)

abbrev is_unit : ℕ → Option ℕ → Bool
is_unit c none = false
is_unit c (some d) = nat_beq c d

-- `\s`
abbrev is_space : ℕ → Bool
is_space c =
    leb 9 c && leb c 13
    || nat_beq c 32
    || nat_beq c 0xa0
    || nat_beq c 0x1680
    || leb 0x2000 c && leb c 0x200a
    || nat_beq c 0x2028
    || nat_beq c 0x2029
    || nat_beq c 0x202f
    || nat_beq c 0x205f
    || nat_beq c 0x3000
    || nat_beq c 0xfeff

-- At most so many further `#`, and a space.
abbrev pub hashes_end : ℕ → Text → Bool
hashes_end n [] = false
hashes_end zero (c ∷ s) = is_space c
hashes_end (suc n) (c ∷ s) = is_space c || (nat_beq c b'#' && hashes_end n s)

-- `/^#{1,6}\s/`
abbrev pub is_header : Text → Bool
is_header [] = false
is_header (c ∷ s) = nat_beq c b'#' && hashes_end 5 s

-- The last of `count` positions from `first` on that passes a test.
unfoldable pub scan_down : (ℕ → Bool) → ℕ → ℕ → Option ℕ
scan_down test first zero = none
scan_down test first (suc count) =
    let earlier = scan_down test first count in
    if test (first + count) then some (first + count) else earlier

-- A position after a line break at which a header stands.
abbrev pub header_at : Text → ℕ → Bool
header_at text pos =
    is_unit b'\n' (get_elem? text (pos - 1)) && is_header (slice pos (pos + 8) text)

abbrev pub paragraph_at : Text → ℕ → ℕ → Bool
paragraph_at text start i =
    is_unit b'\n' (get_elem? text i) && is_unit b'\n' (get_elem? text (i + 1)) && ltb start i

abbrev is_stop : Option ℕ → Bool
is_stop c = is_unit b'.' c || is_unit b'!' c || is_unit b'?' c

abbrev is_blank : Option ℕ → Bool
is_blank c = is_unit b' ' c || is_unit b'\n' c || is_unit b'\t' c

abbrev pub sentence_at : Text → ℕ → ℕ → Bool
sentence_at text limit i =
    is_stop (get_elem? text i) && ltb (i + 1) limit && is_blank (get_elem? text (i + 1))

abbrev pub or_end : Option ℕ → ℕ → ℕ
or_end none limit = limit
or_end (some i) limit = i + 1

abbrev pub or_position : Option ℕ → ℕ → ℕ
or_position none later = later
or_position (some i) later = i

-- The three searches of a window that is longer than one unit.
unfoldable pub search_window : Text → ℕ → ℕ → ℕ
unfolding scan_down
search_window text start limit =
    or_position (scan_down (header_at text) (start + 1) (limit - (start + 1))) (
      or_position (scan_down (paragraph_at text start) start (limit - 1 - start))
        (or_end (scan_down (sentence_at text limit) (start + 1) (limit - (start + 1))) limit))

unfoldable pub find_markdown_split_end : Text → ℕ → ℕ → ℕ
unfolding search_window
find_markdown_split_end text start max_end =
    let limit = min max_end (length text) in
    if leb limit start
    then start
    else (if leb limit (start + 1) then limit else search_window text start limit)

-- A header is preferred to a paragraph, and a paragraph to a sentence.
splits :
    let text = units "One. Two\n\n# H\nmore" in
    (find_markdown_split_end text 0 19 ≡ 10)
    × (find_markdown_split_end text 0 10 ≡ 8)
    × (find_markdown_split_end text 0 8 ≡ 4)
    × (find_markdown_split_end text 5 8 ≡ 8)
unfolding find_markdown_split_end
splits = (refl, refl, refl, refl)
