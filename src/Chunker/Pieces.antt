-- ===== src/Chunker/Pieces.antt =====
-- packages/ingest/src/chunker.ts: the pieces of a chunk that is too long make up its content.
use wtfoc.Prelude.{
  ℕ, zero, suc, ◌+◌, ◌-◌, ◌≤◌, ◌<◌, min, String, Bool, true, false, ◌&&◌, some, inl, inr, List, [],
  ◌∷◌, ◌++◌, ◌≡◌, refl, sym, ap, ◌∙◌, append-nil, append_assoc, map, slice, drop, length,
  length-slice, slice-append-drop, take-all, length-drop, leb, ltb, all, Bool-cases, arith,
}
use wtfoc.Prelude.Text.{Text}
use wtfoc.Schema.{Chunk}
use wtfoc.Chunker.{find_markdown_split_end}
use wtfoc.Chunker.Markdown.{map_from}
use wtfoc.Chunker.Rechunk.{
  piece_end, split_pieces, piece_chunk, split_oversized, rechunk_one, rechunk_all,
  rechunk_oversized,
}
use wtfoc.Chunker.Bounds.{find_markdown_split_end-Cut}

-- The contents in their order.
abbrev pub joined : List Text → Text
joined [] = []
joined (t ∷ ts) = t ++ joined ts

abbrev pub fits : ℕ → Text → Bool
fits limit t = ltb 0 (length t) && leb (length t) limit

record PieceEnd (text : Text) (start limit end : ℕ) : Type 0 where
  after : start < end
  close : end ≤ start + limit
  inside : end ≤ length text

piece_end_lem :
    (text : Text) (start limit : ℕ)
    → 0 < limit
    → start < length text
    → PieceEnd text start limit (piece_end text start (min (start + limit) (length text)))
piece_end_lem text start limit l s =
    let max_end = min (start + limit) (length text) in
    elim (Bool-cases (leb (length text) max_end)) [
      | inl rest ↦
          let past : leb (length text) start ≡ false = ground (arith, s) in
          rw (rest, past) (record { after = s; close = ground (arith, rest); inside = omega arith })
      | inr window ↦
          let cut = find_markdown_split_end-Cut text start max_end (omega arith) in
          let end = find_markdown_split_end text start max_end in
          let past : leb end start ≡ false = ground (arith, cut.after) in
          rw (window, past)
            (record {
              after = cut.after;
              close = omega (arith, cut.within);
              inside = omega (arith, cut.within);
            })
    ]

-- What the pieces of a text from a position on promise.
record Pieces (text : Text) (limit start : ℕ) (ts : List Text) : Type 0 where
  pub same_text : joined ts ≡ drop start text
  pub small : all (fits limit) ts ≡ true

slice-fits :
    (text : Text) (limit start end : ℕ)
    → PieceEnd text start limit end
    → fits limit (slice start end text) ≡ true
slice-fits text limit start end e =
    ground (arith, e.after, e.close, length-slice start end text e.inside)

split_pieces-Pieces :
    (rounds : ℕ) (text : Text) (limit start : ℕ)
    → 0 < limit
    → length text < rounds + start
    → start < length text
    → Pieces text limit start (split_pieces rounds text limit start)
unfolding split_pieces
split_pieces-Pieces zero text limit start l fuel s = absurd (omega arith)
split_pieces-Pieces (suc rounds) text limit start l fuel s =
    let end = piece_end text start (min (start + limit) (length text)) in
    let e = piece_end_lem text start limit l s in
    let more : leb (length text) start ≡ false = ground (arith, s) in
    let fit = slice-fits text limit start end e in
    elim (Bool-cases (leb (length text) end)) [
      | inl ends ↦
          rw (more, ends)
            (record {
              same_text =
                  append-nil (slice start end text)
                  ∙ take-all (end - start) (drop start text)
                      (ground (arith, ends, length-drop start text));
              small = ground (arith, fit);
            })
      | inr goes ↦
          let rest =
            split_pieces-Pieces rounds text limit end l (omega (arith, e.after))
              (ground (arith, goes)) in
          rw (more, goes)
            (record {
              same_text =
                  ap (λ ts. slice start end text ++ ts) rest.same_text
                  ∙ slice-append-drop start end text (omega (arith, e.after));
              small = ground (arith, fit, rest.small);
            })
    ]

abbrev pub contents : List Chunk → List Text
contents = map (λ c. c.content)

contents-map_from :
    (sha : Text → String) (c : Chunk) (n i : ℕ) (ts : List Text)
    → contents (map_from i (piece_chunk sha c n) ts) ≡ ts
contents-map_from sha c n i [] = refl
contents-map_from sha c n i (t ∷ ts) = ap (λ us. t ∷ us) (contents-map_from sha c n (suc i) ts)

-- What rechunking promises: the texts together stay the same, and no chunk is longer than the limit.
pub record Rechunked (limit : ℕ) (chunks result : List Chunk) : Type 0 where
  pub same_text : joined (contents result) ≡ joined (contents chunks)
  pub within : all (λ t. leb (length t) limit) (contents result) ≡ true

all-fits :
    (limit : ℕ) (ts : List Text)
    → all (fits limit) ts ≡ true
    → all (λ t. leb (length t) limit) ts ≡ true
all-fits limit [] h = refl
all-fits limit (t ∷ ts) h = ground (arith, all-fits limit ts)

rechunk_one-Rechunked :
    (sha : Text → String) (limit : ℕ) (c : Chunk)
    → 0 < limit
    → Rechunked limit (c ∷ []) (rechunk_one sha limit c)
unfolding split_oversized
rechunk_one-Rechunked sha limit c l = elim (Bool-cases (leb (length c.content) limit)) [
  | inl short ↦ rw short (record { same_text = refl; within = ground (arith, short) })
  | inr long ↦
      let ts = split_pieces (length c.content + 5) c.content limit 0 in
      let p =
        split_pieces-Pieces (length c.content + 5) c.content limit 0 l (omega arith)
          (ground (arith, long, l)) in
      rw long (record {
        same_text =
            ap joined (contents-map_from sha c (length ts) 0 ts)
            ∙ p.same_text
            ∙ sym (append-nil c.content);
        within = rw (contents-map_from sha c (length ts) 0 ts) (all-fits limit ts p.small);
      })
]

contents-append :
    (xs ys : List Chunk)
    → joined (contents (xs ++ ys)) ≡ joined (contents xs) ++ joined (contents ys)
contents-append [] ys = refl
contents-append (x ∷ xs) ys =
    ap (λ t. x.content ++ t) (contents-append xs ys) ∙ sym (append_assoc x.content _ _)

within-append :
    (limit : ℕ) (xs ys : List Chunk)
    → all (λ t. leb (length t) limit) (contents xs) ≡ true
    → all (λ t. leb (length t) limit) (contents ys) ≡ true
    → all (λ t. leb (length t) limit) (contents (xs ++ ys)) ≡ true
within-append limit [] ys h k = k
within-append limit (x ∷ xs) ys h k = ground (arith, within-append limit xs ys)

rechunk_all-Rechunked :
    (sha : Text → String) (limit : ℕ) (chunks : List Chunk)
    → 0 < limit
    → Rechunked limit chunks (rechunk_all sha limit chunks)
rechunk_all-Rechunked sha limit [] l = record { same_text = refl; within = refl }
rechunk_all-Rechunked sha limit (c ∷ cs) l =
    let one = rechunk_one-Rechunked sha limit c l in
    let rest = rechunk_all-Rechunked sha limit cs l in
    record {
      same_text =
          contents-append (rechunk_one sha limit c) (rechunk_all sha limit cs)
          ∙ ap (λ t. t ++ joined (contents (rechunk_all sha limit cs)))
              (one.same_text ∙ append-nil c.content)
          ∙ ap (λ t. c.content ++ t) rest.same_text;
      within =
          within-append limit (rechunk_one sha limit c) (rechunk_all sha limit cs) one.within
            rest.within;
    }

-- `rechunkOversized` with a limit of at least 1: the contents of the chunks that it returns, put
-- together in their order, are those of the chunks that it was given, and none is longer than the limit.
-- So its loop ends within the rounds that the code allows.
pub rechunk_oversized-Rechunked :
    (sha : Text → String) (chunks : List Chunk) (limit : ℕ)
    → 0 < limit
    → Rechunked limit chunks (rechunk_oversized sha chunks (some limit))
unfolding rechunk_oversized
rechunk_oversized-Rechunked sha chunks limit l =
    let many : ltb limit 1 ≡ false = ground (arith, l) in
    rw many (rechunk_all-Rechunked sha limit chunks l)
