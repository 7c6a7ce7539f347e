-- ===== src/Chunker/Covers.antt =====
-- packages/ingest/src/chunker.ts: the windows of `chunkMarkdown` cover the text, and its rounds are
-- enough.
use wtfoc.Prelude.{
  ℕ, zero, suc, ◌+◌, ◌≤◌, ◌<◌, min, String, true, false, ◌&&◌, some, inl, inr, List, [], ◌∷◌, ◌≡◌,
  refl, ap, map, slice, length, leb, ltb, if◌then◌else◌, Bool-cases, arith,
}
use wtfoc.Prelude.Text.{Text}
use wtfoc.Schema.{Chunk}
use wtfoc.Chunker.{find_markdown_split_end, clamp_overlap}
use wtfoc.Chunker.Markdown.{
  whole, MarkdownChunkerOptions, Chunked, chunked, round_end, next_start, split_rounds,
  split_markdown, markdown_chunk, map_from, chunk_markdown,
}
use wtfoc.Chunker.Bounds.{find_markdown_split_end-Cut, clamp_overlap-lt}

-- Parts of a text from a position on. None is longer than `size`; each ends behind the one before, which
-- ended at `prev_end`; the next one begins behind the start of this one and shares at most `overlap`
-- units with it; the last one ends with the text.
pub data Covers (text : Text) (size overlap : ℕ) : ℕ → ℕ → List Text → Type 0 where
  last :
      {start prev_end : ℕ}
      → start < length text
      → prev_end < length text
      → length text ≤ start + size
      → Covers text size overlap start prev_end (slice start (length text) text ∷ [])
  more :
      {start prev_end : ℕ} {rest : List Text} (end next : ℕ)
      → start < end
      → prev_end < end
      → end ≤ start + size
      → end < length text
      → start < next
      → next ≤ end
      → end ≤ next + overlap
      → Covers text size overlap next end rest
      → Covers text size overlap start prev_end (slice start end text ∷ rest)

record NewEnd (start prev_end max_end end : ℕ) : Type 0 where
  after : start < end
  fresh : prev_end < end
  within : end ≤ max_end

-- The cut behind the last end, if the first cut is not, and the first one else.
second_cut :
    (text : Text) (overlap start prev_end max_end first : ℕ)
    → max_end ≤ length text
    → prev_end < max_end
    → prev_end ≤ start + overlap
    → start < first
    → first ≤ max_end
    → NewEnd start prev_end max_end (
        if ltb 0 overlap && leb first prev_end && ltb prev_end max_end
        then find_markdown_split_end text prev_end max_end
        else first)
second_cut text overlap start prev_end max_end first len prev lap after within =
    let again = find_markdown_split_end-Cut text prev_end max_end (omega arith) in
    elim (Bool-cases (ltb 0 overlap && leb first prev_end && ltb prev_end max_end)) [
      | inl taken ↦ rw taken (record {
        after = ground (arith, taken, again.after);
        fresh = again.after;
        within = omega (arith, again.within);
      })
      | inr kept ↦ rw kept (record { after = after; fresh = ground (arith, kept); within = within })
    ]

round_end-NewEnd :
    (text : Text) (overlap start prev_end max_end : ℕ)
    → start < max_end
    → max_end ≤ length text
    → prev_end < max_end
    → prev_end ≤ start + overlap
    → NewEnd start prev_end max_end (round_end text overlap start prev_end max_end)
round_end-NewEnd text overlap start prev_end max_end room len prev lap =
    let cut = find_markdown_split_end-Cut text start max_end (omega arith) in
    let first = find_markdown_split_end text start max_end in
    let e =
      second_cut text overlap start prev_end max_end first len prev lap cut.after
        (omega (arith, cut.within)) in
    let end =
      if ltb 0 overlap && leb first prev_end && ltb prev_end max_end
      then find_markdown_split_end text prev_end max_end
      else first in
    let past : leb end start ≡ false = ground (arith, e.after) in rw past e

record Next (overlap start end next : ℕ) : Type 0 where
  advances : start < next
  joined : next ≤ end
  shares : end ≤ next + overlap

next_start-Next :
    (overlap start end : ℕ) → start < end → Next overlap start end (next_start overlap start end)
next_start-Next overlap start end h = record {
  advances = ground arith;
  joined = ground arith;
  shares = ground arith;
}

split_rounds-Covers :
    (rounds : ℕ) (text : Text) (size overlap start prev_end : ℕ)
    → overlap < size
    → length text < rounds + start
    → start < length text
    → prev_end < length text
    → prev_end ≤ start + overlap
    → Covers text size overlap start prev_end (split_rounds rounds text size overlap start prev_end)
unfolding split_rounds
split_rounds-Covers zero text size overlap start prev_end small fuel s p lap = absurd (omega arith)
split_rounds-Covers (suc rounds) text size overlap start prev_end small fuel s p lap =
    let max_end = min (start + size) (length text) in
    let open_ : leb (length text) start ≡ false = ground (arith, s) in
    elim (Bool-cases (leb (length text) max_end)) [
      | inl whole_rest ↦
          let there : leb (length text) (length text) ≡ true = ground arith in
          rw (open_, whole_rest, there) (last s p (ground (arith, whole_rest)))
      | inr window ↦
          let e =
            round_end-NewEnd text overlap start prev_end max_end (omega arith) (omega arith)
              (ground (arith, window, lap, small)) lap in
          let end = round_end text overlap start prev_end max_end in
          let before : end < length text = ground (arith, window, e.within) in
          let n = next_start-Next overlap start end e.after in
          let inside : leb (length text) end ≡ false = ground (arith, before) in
          rw (open_, window, inside)
            (more end (next_start overlap start end) e.after e.fresh (omega (arith, e.within))
              before n.advances n.joined n.shares
              (split_rounds-Covers rounds text size overlap (next_start overlap start end) end small
                (omega (arith, n.advances)) (omega (arith, n.joined, before)) before n.shares))
    ]

map_from-content :
    (sha : Text → String) (o : MarkdownChunkerOptions) (n i : ℕ) (ts : List Text)
    → map (λ c. c.content) (map_from i (markdown_chunk sha o n) ts) ≡ ts
map_from-content sha o n i [] = refl
map_from-content sha o n i (t ∷ ts) = ap (λ us. t ∷ us) (map_from-content sha o n (suc i) ts)

-- What `chunkMarkdown` answers: chunks whose contents cover the text.
pub data CoveredBy (text : Text) (size overlap : ℕ) : Chunked → Type 0 where
  covered :
      {chunks : List Chunk}
      → Covers text size overlap 0 0 (map (λ c. c.content) chunks)
      → CoveredBy text size overlap (chunked chunks)

-- `chunkMarkdown` of a text that is not empty, with a size of at least 1 and any overlap, returns chunks
-- that cover the text within the rounds that its loop is allowed: each is a part of the text of at most
-- the size, each ends behind the one before it and shares at most the clamped overlap with it, none is
-- left out in between, the first starts with the text and the last ends with it.
pub chunk_markdown-CoveredBy :
    (sha : Text → String) (text : Text) (o : MarkdownChunkerOptions) (size overlap : ℕ)
    → o.chunk_size ≡ some (whole size)
    → o.chunk_overlap ≡ some (whole overlap)
    → 0 < size
    → 0 < length text
    → CoveredBy text size (clamp_overlap overlap size) (chunk_markdown sha text o)
unfolding chunk_markdown split_markdown
chunk_markdown-CoveredBy sha text o zero overlap a b s t = elim s [ ]
chunk_markdown-CoveredBy sha text o (suc n) overlap a b s t =
    let lap = clamp_overlap overlap (suc n) in
    let raw = split_markdown text (suc n) lap in
    let c : Covers text (suc n) lap 0 0 raw =
      split_rounds-Covers (length text + 5) text (suc n) lap 0 0
        (clamp_overlap-lt overlap (suc n) s) (omega arith) t t (omega arith) in
    rw (a, b) (covered (rw (map_from-content sha o (length raw) 0 raw) c))
