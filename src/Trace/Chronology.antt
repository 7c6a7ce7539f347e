-- ===== src/Trace/Chronology.antt =====
-- packages/search/src/trace/chronology.ts. `parse` is `Date.parse`, which answers none for `NaN` and
-- else the milliseconds, counted from the earliest date.
pub mod Once
pub mod Order
use wtfoc.Prelude.{
  ℕ, suc, String, Bool, ◌&&◌, ◌||◌, Option, none, some, List, [], ◌∷◌, ◌++◌, ◌==◌, ltb, map,
  if◌then◌else◌, text_has_eq, number_has_eq,
}
use wtfoc.Prelude.Sorting.{sort}
use wtfoc.Trace.{TraceHop}

pub record Dated : Type 0 where
  pub i : ℕ
  pub ms : ℕ

abbrev pub parse_hop_timestamp_ms : (String → Option ℕ) → Option String → Option ℕ
parse_hop_timestamp_ms parse none = none
parse_hop_timestamp_ms parse (some ts) = if ts == "" then none else parse ts

-- The two arrays that the loop fills.
pub record Split : Type 0 where
  pub dated : List Dated
  pub undated : List ℕ

abbrev pub put : ℕ → Option ℕ → Split → Split
put i none rest = record rest { undated = i ∷ rest.undated }
put i (some ms) rest = record rest { dated = record { i = i; ms = ms } ∷ rest.dated }

-- The hops from the index `i` on.
unfoldable pub split_hops : (String → Option ℕ) → ℕ → List TraceHop → Split
split_hops parse i [] = record { dated = []; undated = [] }
split_hops parse i (h ∷ hs) =
    put i (parse_hop_timestamp_ms parse h.chunk.timestamp) (split_hops parse (suc i) hs)

-- `a.ms - b.ms || a.i - b.i` is negative.
abbrev pub earlier : Dated → Dated → Bool
earlier a b = ltb a.ms b.ms || (a.ms == b.ms && ltb a.i b.i)

unfoldable pub build_chronological_hop_indices : (String → Option ℕ) → List TraceHop → List ℕ
unfolding split_hops sort
build_chronological_hop_indices parse hops =
    let s = split_hops parse 0 hops in map (λ d. d.i) (sort earlier s.dated) ++ s.undated
