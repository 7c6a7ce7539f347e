-- ===== src/Pipeline/Batches.antt =====
-- packages/ingest/src/pipeline/process-stream.ts: what the batches of a run hold.
use wtfoc.Prelude.{
  ℕ, ◌+◌, ◌<◌, ◌≤◌, Bool, true, ◌&&◌, inl, inr, List, [], ◌∷◌, ◌++◌, ◌≡◌, refl, sym, ap, ◌∙◌,
  append-nil, append_assoc, length, length-append, leb, ltb, all, Bool-cases, text_has_eq, arith,
}
use wtfoc.Schema.{Chunk}
use wtfoc.Pipeline.{PipelineState}
use wtfoc.Pipeline.Stream.{flush_list, batch_chunk}

-- The chunks of some batches in their order.
abbrev pub concat : List (List Chunk) → List Chunk
concat [] = []
concat (b ∷ bs) = b ++ concat bs

abbrev pub written : PipelineState → List Chunk
written s = concat s.flushed ++ s.batch

abbrev pub sized : ℕ → List Chunk → Bool
sized max_batch b = ltb 0 (length b) && leb (length b) max_batch

-- The batches of a state are filled and counted.
pub record Batched (max_batch : ℕ) (s : PipelineState) : Type 0 where
  pub all_sized : all (sized max_batch) s.flushed ≡ true
  pub room : length s.batch < max_batch
  pub ingested : s.stats.chunks_ingested ≡ length (concat s.flushed)
  pub numbered : s.stats.batches_written ≡ length s.flushed

concat-append : (xs ys : List (List Chunk)) → concat (xs ++ ys) ≡ concat xs ++ concat ys
concat-append [] ys = refl
concat-append (b ∷ bs) ys =
    ap (λ cs. b ++ cs) (concat-append bs ys) ∙ sym (append_assoc b (concat bs) (concat ys))

concat_one : (bs : List (List Chunk)) (b : List Chunk) → concat (bs ++ b ∷ []) ≡ concat bs ++ b
concat_one bs b = concat-append bs (b ∷ []) ∙ ap (λ cs. concat bs ++ cs) (append-nil b)

all-append_one :
    (p : List Chunk → Bool) (bs : List (List Chunk)) (b : List Chunk)
    → all p bs ≡ true
    → p b ≡ true
    → all p (bs ++ b ∷ []) ≡ true
all-append_one p [] b h k = ground (arith, k)
all-append_one p (x ∷ bs) b h k = ground (arith, all-append_one p bs b)

-- What a step did: it wrote some chunks and skipped some, and the known chunks stay the same.
pub record Wrote (s t : PipelineState) (fresh : List Chunk) (skipped : ℕ) : Type 0 where
  pub added : written t ≡ written s ++ fresh
  pub same_fingerprints : t.known_fingerprints ≡ s.known_fingerprints
  pub same_ids : t.known_chunk_ids ≡ s.known_chunk_ids
  pub counted : t.stats.chunks_skipped ≡ s.stats.chunks_skipped + skipped

pub Wrote-trans :
    {s t u : PipelineState} {xs ys : List Chunk} {m n : ℕ}
    → Wrote s t xs m
    → Wrote t u ys n
    → Wrote s u (xs ++ ys) (m + n)
Wrote-trans {s = s} {xs = xs} {ys = ys} a b = record {
  added = b.added ∙ ap (λ cs. cs ++ ys) a.added ∙ append_assoc (written s) xs ys;
  same_fingerprints = b.same_fingerprints ∙ a.same_fingerprints;
  same_ids = b.same_ids ∙ a.same_ids;
  counted = omega (arith, a.counted, b.counted);
}

-- The batch may be full.
pub record Brimming (max_batch : ℕ) (s : PipelineState) : Type 0 where
  pub all_sized : all (sized max_batch) s.flushed ≡ true
  pub full : length s.batch ≤ max_batch
  pub ingested : s.stats.chunks_ingested ≡ length (concat s.flushed)
  pub numbered : s.stats.batches_written ≡ length s.flushed

pub flush_list-Wrote :
    (b : List Chunk) (s : PipelineState) → s.batch ≡ b → Wrote s (flush_list b s) [] 0
flush_list-Wrote [] s e = record {
  added = sym (append-nil (written s));
  same_fingerprints = refl;
  same_ids = refl;
  counted = omega arith;
}
flush_list-Wrote (c ∷ cs) s e = record {
  added =
      append-nil (concat (s.flushed ++ (c ∷ cs) ∷ []))
      ∙ concat_one s.flushed (c ∷ cs)
      ∙ ap (λ b. concat s.flushed ++ b) (sym e)
      ∙ sym (append-nil (written s));
  same_fingerprints = refl;
  same_ids = refl;
  counted = omega arith;
}

pub flush_list-Batched :
    (max_batch : ℕ) (b : List Chunk) (s : PipelineState)
    → 0 < max_batch
    → s.batch ≡ b
    → Brimming max_batch s
    → Batched max_batch (flush_list b s) × ((flush_list b s).batch ≡ [])
flush_list-Batched max_batch [] s m e r = (
  record {
    all_sized = r.all_sized;
    room = omega (arith, m, ap length e);
    ingested = r.ingested;
    numbered = r.numbered;
  },
  e,
)
flush_list-Batched max_batch (c ∷ cs) s m e r = (
  record {
    all_sized =
        all-append_one (sized max_batch) s.flushed (c ∷ cs) r.all_sized (ground (arith, r.full, e));
    room = m;
    ingested = omega (
      arith,
      r.ingested,
      ap length (concat_one s.flushed (c ∷ cs)),
      length-append (concat s.flushed) (c ∷ cs),
    );
    numbered = omega (arith, r.numbered, length-append s.flushed ((c ∷ cs) ∷ []));
  },
  refl,
)

-- A chunk that is not known goes into the batch.
add_one : Chunk → PipelineState → PipelineState
add_one c s = record s { batch = s.batch ++ c ∷ [] }

add_one-Wrote : (c : Chunk) (s : PipelineState) → Wrote s (add_one c s) (c ∷ []) 0
unfolding add_one
add_one-Wrote c s = record {
  added = sym (append_assoc (concat s.flushed) s.batch (c ∷ []));
  same_fingerprints = refl;
  same_ids = refl;
  counted = omega arith;
}

add_one-Brimming :
    (max_batch : ℕ) (c : Chunk) (s : PipelineState)
    → Batched max_batch s
    → Brimming max_batch (add_one c s)
unfolding add_one
add_one-Brimming max_batch c s b = record {
  all_sized = b.all_sized;
  full = omega (arith, b.room, length-append s.batch (c ∷ []));
  ingested = b.ingested;
  numbered = b.numbered;
}

pub record Stepped (max_batch : ℕ) (s t : PipelineState) (fresh : List Chunk) (skipped : ℕ)
    : Type 0 where
  pub wrote : Wrote s t fresh skipped
  pub batched : Batched max_batch t

pub batch_chunk-Stepped :
    (max_batch : ℕ) (c : Chunk) (s : PipelineState)
    → 0 < max_batch
    → Batched max_batch s
    → Stepped max_batch s (batch_chunk max_batch c s) (c ∷ []) 0
unfolding add_one
batch_chunk-Stepped max_batch c s m b =
    let t = add_one c s in
    elim (Bool-cases (leb max_batch (length t.batch))) [
      | inl full ↦ rw full (record {
        wrote = Wrote-trans (add_one-Wrote c s) (flush_list-Wrote t.batch t refl);
        batched =
            (flush_list-Batched max_batch t.batch t m refl (add_one-Brimming max_batch c s b)).0;
      })
      | inr short ↦ rw short (record {
        wrote = add_one-Wrote c s;
        batched = record {
          all_sized = b.all_sized;
          room = ground (arith, short);
          ingested = b.ingested;
          numbered = b.numbered;
        };
      })
    ]

pub Stepped-trans :
    {max_batch : ℕ} {s t u : PipelineState} {xs ys : List Chunk} {m n : ℕ}
    → Stepped max_batch s t xs m
    → Stepped max_batch t u ys n
    → Stepped max_batch s u (xs ++ ys) (m + n)
Stepped-trans a b = record { wrote = Wrote-trans a.wrote b.wrote; batched = b.batched }

pub Batched-Brimming :
    (max_batch : ℕ) (s : PipelineState) → Batched max_batch s → Brimming max_batch s
Batched-Brimming max_batch s b = record {
  all_sized = b.all_sized;
  full = omega (arith, b.room);
  ingested = b.ingested;
  numbered = b.numbered;
}
