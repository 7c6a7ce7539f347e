-- ===== src/Pipeline/Quiet.antt =====
-- packages/ingest/src/pipeline/process-stream.ts: the parts of a step that leave the batches alone.
use wtfoc.Prelude.{
  ℕ, String, Bool, true, false, List, [], ◌≡◌, refl, ◌∙◌, append-nil, or_else, if◌then◌else◌,
  text_has_eq, arith,
}
use wtfoc.Schema.{Chunk}
use wtfoc.Pipeline.{PipelineState}
use wtfoc.Pipeline.Archive.{Outside}
use wtfoc.Pipeline.Filters.{source_time}
use wtfoc.Pipeline.Stream.{
  StreamOptions, track_time, archive_chunk, pend_chunk, count_rechunked, prepare_raw,
}
use wtfoc.Pipeline.Batches.{written, Batched, Stepped}

-- A step that touches neither the batches nor what is known.
pub record Quiet (s t : PipelineState) : Type 0 where
  pub same_batch : t.batch ≡ s.batch
  pub same_flushed : t.flushed ≡ s.flushed
  pub same_fingerprints : t.known_fingerprints ≡ s.known_fingerprints
  pub same_ids : t.known_chunk_ids ≡ s.known_chunk_ids
  pub same_ingested : t.stats.chunks_ingested ≡ s.stats.chunks_ingested
  pub same_skipped : t.stats.chunks_skipped ≡ s.stats.chunks_skipped
  pub same_batches : t.stats.batches_written ≡ s.stats.batches_written

pub Quiet-refl : (s : PipelineState) → Quiet s s
Quiet-refl s = record {
  same_batch = refl;
  same_flushed = refl;
  same_fingerprints = refl;
  same_ids = refl;
  same_ingested = refl;
  same_skipped = refl;
  same_batches = refl;
}

pub Quiet-Batched :
    {max_batch : ℕ} {s t : PipelineState} → Quiet s t → Batched max_batch s → Batched max_batch t
Quiet-Batched q b = record {
  all_sized = rw q.same_flushed b.all_sized;
  room = rw q.same_batch b.room;
  ingested = rw q.same_flushed (q.same_ingested ∙ b.ingested);
  numbered = rw q.same_flushed (q.same_batches ∙ b.numbered);
}

pub Quiet-Stepped :
    {max_batch : ℕ} {s t : PipelineState}
    → Quiet s t
    → Batched max_batch s
    → Stepped max_batch s t [] 0
Quiet-Stepped {max_batch = max_batch} {s = s} {t = t} q b = record {
  wrote = record {
    added = cc (q.same_batch, q.same_flushed, append-nil (written s));
    same_fingerprints = q.same_fingerprints;
    same_ids = q.same_ids;
    counted = omega (arith, q.same_skipped);
  };
  batched = Quiet-Batched q b;
}

pub after-Quiet :
    {max_batch : ℕ} {s t u : PipelineState} {xs : List Chunk} {n : ℕ}
    → Quiet s t
    → Stepped max_batch t u xs n
    → Stepped max_batch s u xs n
after-Quiet q d = record {
  wrote = record {
    added = cc (d.wrote.added, q.same_batch, q.same_flushed);
    same_fingerprints = d.wrote.same_fingerprints ∙ q.same_fingerprints;
    same_ids = d.wrote.same_ids ∙ q.same_ids;
    counted = omega (arith, d.wrote.counted, q.same_skipped);
  };
  batched = d.batched;
}

Quiet-if : (b : Bool) {s t : PipelineState} → Quiet s t → Quiet s (if b then t else s)
Quiet-if true q = q
Quiet-if false {s = s} q = Quiet-refl s

pub pend_chunk-Quiet : (c : Chunk) (s : PipelineState) → Quiet s (pend_chunk c s)
pend_chunk-Quiet c s = Quiet-if _ (record {
  same_batch = refl;
  same_flushed = refl;
  same_fingerprints = refl;
  same_ids = refl;
  same_ingested = refl;
  same_skipped = refl;
  same_batches = refl;
})

pub count_rechunked-Quiet : (n : ℕ) (s : PipelineState) → Quiet s (count_rechunked n s)
count_rechunked-Quiet n s = Quiet-if _ (record {
  same_batch = refl;
  same_flushed = refl;
  same_fingerprints = refl;
  same_ids = refl;
  same_ingested = refl;
  same_skipped = refl;
  same_batches = refl;
})

track_time-Quiet : (time : String) (s : PipelineState) → Quiet s (track_time time s)
track_time-Quiet time s = Quiet-if _ (record {
  same_batch = refl;
  same_flushed = refl;
  same_fingerprints = refl;
  same_ids = refl;
  same_ingested = refl;
  same_skipped = refl;
  same_batches = refl;
})

Quiet-trans : {s t u : PipelineState} → Quiet s t → Quiet t u → Quiet s u
Quiet-trans a b = record {
  same_batch = b.same_batch ∙ a.same_batch;
  same_flushed = b.same_flushed ∙ a.same_flushed;
  same_fingerprints = b.same_fingerprints ∙ a.same_fingerprints;
  same_ids = b.same_ids ∙ a.same_ids;
  same_ingested = b.same_ingested ∙ a.same_ingested;
  same_skipped = b.same_skipped ∙ a.same_skipped;
  same_batches = b.same_batches ∙ a.same_batches;
}

pub prepare_raw-Quiet :
    (w : Outside) (o : StreamOptions) (s : PipelineState) (c : Chunk)
    → Quiet s (prepare_raw w o s c)
unfolding prepare_raw archive_chunk
prepare_raw-Quiet w o s c = Quiet-trans (track_time-Quiet (or_else (source_time c) "") s) (
    Quiet-if _ (record {
      same_batch = refl;
      same_flushed = refl;
      same_fingerprints = refl;
      same_ids = refl;
      same_ingested = refl;
      same_skipped = refl;
      same_batches = refl;
    }))
