-- ===== src/Chunker/Bounds.antt =====
-- packages/ingest/src/chunker.ts: a cut lies behind the start of its window and not behind its end.
use wtfoc.Prelude.{
  ℕ, zero, suc, ◌+◌, ◌-◌, ◌≤◌, ◌<◌, min, Bool, true, Option, none, some, inl, inr, ◌≡◌, refl,
  length, leb, Bool-cases, arith,
}
use wtfoc.Prelude.Text.{Text}
use wtfoc.Chunker.{
  clamp_overlap, header_at, paragraph_at, sentence_at, scan_down, search_window,
  find_markdown_split_end, or_end, or_position,
}

-- A search answers a position of its range that passes its test.
record Finds (test : ℕ → Bool) (first count : ℕ) (o : Option ℕ) : Type 0 where
  lower : (i : ℕ) → o ≡ some i → first ≤ i
  upper : (i : ℕ) → o ≡ some i → i < first + count
  passes : (i : ℕ) → o ≡ some i → test i ≡ true

scan_down-Finds :
    (test : ℕ → Bool) (first count : ℕ) → Finds test first count (scan_down test first count)
unfolding scan_down
scan_down-Finds test first zero = record {
  lower = λ i e. ground (arith, e);
  upper = λ i e. ground (arith, e);
  passes = λ i e. ground (arith, e);
}
scan_down-Finds test first (suc count) =
    let w = scan_down-Finds test first count in
    elim (Bool-cases (test (first + count))) [
      | inl here ↦ rw here (record {
        lower = λ i e. ground (arith, e);
        upper = λ i e. ground (arith, e);
        passes = λ i e. ground (arith, e, here);
      })
      | inr past ↦
          rw past (record {
            lower = w.lower;
            upper = λ i e. omega (arith, w.upper i e);
            passes = w.passes;
          })
    ]

-- What a cut of a window promises.
pub record Cut (start limit end : ℕ) : Type 0 where
  pub after : start < end
  pub within : end ≤ limit

or_position-Cut :
    (start limit later : ℕ) (o : Option ℕ)
    → ((i : ℕ) → o ≡ some i → start < i)
    → ((i : ℕ) → o ≡ some i → i ≤ limit)
    → Cut start limit later
    → Cut start limit (or_position o later)
or_position-Cut start limit later none a b c = c
or_position-Cut start limit later (some i) a b c = record { after = a i refl; within = b i refl }

or_end-Cut :
    (start limit : ℕ) (o : Option ℕ)
    → start < limit
    → ((i : ℕ) → o ≡ some i → start < i)
    → ((i : ℕ) → o ≡ some i → i < limit)
    → Cut start limit (or_end o limit)
or_end-Cut start limit none h a b = record { after = h; within = omega arith }
or_end-Cut start limit (some i) h a b = record {
  after = omega (arith, a i refl);
  within = omega (arith, b i refl);
}

search_window-Cut :
    (text : Text) (start limit : ℕ)
    → start + 1 < limit
    → Cut start limit (search_window text start limit)
unfolding search_window
search_window-Cut text start limit h =
    let count = limit - (start + 1) in
    let header = scan_down (header_at text) (start + 1) count in
    let paragraph = scan_down (paragraph_at text start) start (limit - 1 - start) in
    let sentence = scan_down (sentence_at text limit) (start + 1) count in
    let headers = scan_down-Finds (header_at text) (start + 1) count in
    let paragraphs = scan_down-Finds (paragraph_at text start) start (limit - 1 - start) in
    let sentences = scan_down-Finds (sentence_at text limit) (start + 1) count in
    or_position-Cut start limit (or_position paragraph (or_end sentence limit)) header
      (λ i e. omega (arith, headers.lower i e)) (λ i e. omega (arith, headers.upper i e))
      (or_position-Cut start limit (or_end sentence limit) paragraph
        (λ i e. ground (arith, paragraphs.passes i e)) (λ i e. omega (arith, paragraphs.upper i e))
        (or_end-Cut start limit sentence (omega arith) (λ i e. omega (arith, sentences.lower i e))
          (λ i e. omega (arith, sentences.upper i e))))

-- A window that is not empty is cut behind its start, and not behind its end or that of the text.
pub find_markdown_split_end-Cut :
    (text : Text) (start max_end : ℕ)
    → start < min max_end (length text)
    → Cut start (min max_end (length text)) (find_markdown_split_end text start max_end)
unfolding find_markdown_split_end
find_markdown_split_end-Cut text start max_end h =
    let limit = min max_end (length text) in
    elim (Bool-cases (leb limit start)) [
      | inl empty ↦ absurd (ground arith)
      | inr wide ↦ elim (Bool-cases (leb limit (start + 1))) [
        | inl one ↦ rw (wide, one) (record { after = h; within = omega arith })
        | inr more ↦ rw (wide, more) (search_window-Cut text start limit (ground arith))
      ]
    ]

pub clamp_overlap-lt : (overlap size : ℕ) → 0 < size → clamp_overlap overlap size < size
unfolding clamp_overlap
clamp_overlap-lt overlap size h = ground arith
