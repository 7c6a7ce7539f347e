-- ===== src/Pipeline/Written.antt =====
-- packages/ingest/src/pipeline/process-stream.ts: which chunks of a stream are written.
use wtfoc.Prelude.{
  ℕ, ◌+◌, ◌<◌, Bool, true, false, List, [], ◌∷◌, ◌++◌, ◌≡◌, refl, sym, ap, append-nil, length,
  if◌then◌else◌, text_has_eq, arith,
}
use wtfoc.Schema.{Chunk}
use wtfoc.Pipeline.{PipelineState}
use wtfoc.Pipeline.Archive.{Outside}
use wtfoc.Pipeline.Filters.{should_include_chunk}
use wtfoc.Pipeline.Stream.{
  StreamOptions, flush, process_chunks, count_rechunked, filter_chunk, prepare_raw, stripped,
  chunks_of, process_raw, process_all, process_stream,
}
use wtfoc.Pipeline.Batches.{
  concat, written, Batched, Stepped, Batched-Brimming, flush_list-Wrote, flush_list-Batched,
}
use wtfoc.Pipeline.Quiet.{
  Quiet, Quiet-refl, Quiet-Stepped, Quiet-Batched, after-Quiet, count_rechunked-Quiet,
  prepare_raw-Quiet,
}
use wtfoc.Pipeline.Stepped.{fresh, stale, then-Stepped, process_chunks-Stepped}

-- The chunks that pass the filter, cut to size.
unfoldable pub admitted : Outside → StreamOptions → List Chunk → List Chunk
admitted w o [] = []
admitted w o (c ∷ cs) =
    (if should_include_chunk w.parse_date (stripped c) o.filters then chunks_of w o c else [])
    ++ admitted w o cs

after-fresh :
    {max_batch : ℕ} {s t u : PipelineState} (xs : List Chunk)
    → Quiet s t
    → Stepped max_batch t u
        (fresh t.known_fingerprints t.known_chunk_ids xs)
        (stale t.known_fingerprints t.known_chunk_ids xs)
    → Stepped max_batch s u
        (fresh s.known_fingerprints s.known_chunk_ids xs)
        (stale s.known_fingerprints s.known_chunk_ids xs)
after-fresh xs q d = after-Quiet q (simp (← q.same_fingerprints, ← q.same_ids) d)

included-Stepped :
    (included : Bool) (max_batch : ℕ) (t : PipelineState) (cs : List Chunk)
    → 0 < max_batch
    → Batched max_batch t
    → Stepped max_batch t
        (if included
          then process_chunks max_batch (count_rechunked (length cs) t) cs
          else filter_chunk t)
        (fresh t.known_fingerprints t.known_chunk_ids (if included then cs else []))
        (stale t.known_fingerprints t.known_chunk_ids (if included then cs else []))
unfolding fresh stale
included-Stepped true max_batch t cs m b =
    let q = count_rechunked-Quiet (length cs) t in
    let d =
      process_chunks-Stepped max_batch (count_rechunked (length cs) t) cs m (Quiet-Batched q b) in
    after-fresh cs q d
included-Stepped false max_batch t cs m b =
    Quiet-Stepped
      (record {
        same_batch = refl;
        same_flushed = refl;
        same_fingerprints = refl;
        same_ids = refl;
        same_ingested = refl;
        same_skipped = refl;
        same_batches = refl;
      })
      b

process_raw-Stepped :
    (w : Outside) (o : StreamOptions) (s : PipelineState) (c : Chunk)
    → 0 < o.max_batch
    → Batched o.max_batch s
    → Stepped o.max_batch s
        (process_raw w o s c)
        (fresh s.known_fingerprints s.known_chunk_ids (admitted w o (c ∷ [])))
        (stale s.known_fingerprints s.known_chunk_ids (admitted w o (c ∷ [])))
unfolding process_raw admitted
process_raw-Stepped w o s c m b =
    let q = prepare_raw-Quiet w o s c in
    let cs =
      if should_include_chunk w.parse_date (stripped c) o.filters then chunks_of w o c else [] in
    rw (append-nil cs) (
      after-fresh cs q (
        included-Stepped (should_include_chunk w.parse_date (stripped c) o.filters) o.max_batch
          (prepare_raw w o s c) (chunks_of w o c) m (Quiet-Batched q b)))

admitted-cons :
    (w : Outside) (o : StreamOptions) (c : Chunk) (cs : List Chunk)
    → admitted w o (c ∷ cs) ≡ admitted w o (c ∷ []) ++ admitted w o cs
unfolding admitted
admitted-cons w o c cs =
    let first =
      if should_include_chunk w.parse_date (stripped c) o.filters then chunks_of w o c else [] in
    ap (λ xs. xs ++ admitted w o cs) (sym (append-nil first))

nothing-Stepped :
    (w : Outside) (o : StreamOptions) (s : PipelineState)
    → Batched o.max_batch s
    → Stepped o.max_batch s s
        (fresh s.known_fingerprints s.known_chunk_ids (admitted w o []))
        (stale s.known_fingerprints s.known_chunk_ids (admitted w o []))
unfolding admitted fresh stale
nothing-Stepped w o s b = Quiet-Stepped (Quiet-refl s) b

process_all-Stepped :
    (w : Outside) (o : StreamOptions) (s : PipelineState) (stream : List Chunk)
    → 0 < o.max_batch
    → Batched o.max_batch s
    → Stepped o.max_batch s
        (process_all w o s stream)
        (fresh s.known_fingerprints s.known_chunk_ids (admitted w o stream))
        (stale s.known_fingerprints s.known_chunk_ids (admitted w o stream))
unfolding process_all
process_all-Stepped w o s [] m b = nothing-Stepped w o s b
process_all-Stepped w o s (c ∷ cs) m b =
    let a = process_raw-Stepped w o s c m b in
    let rest = process_all-Stepped w o (process_raw w o s c) cs m a.batched in
    rw (admitted-cons w o c cs) (then-Stepped (admitted w o (c ∷ [])) (admitted w o cs) a rest)

-- What a stream leaves in the state.
pub record FlushedInOrder (w : Outside) (o : StreamOptions) (s : PipelineState)
    (stream : List Chunk) (t : PipelineState) : Type 0 where
  pub in_order :
      concat t.flushed
      ≡ written s ++ fresh s.known_fingerprints s.known_chunk_ids (admitted w o stream)
  pub nothing_left : t.batch ≡ []
  pub batched : Batched o.max_batch t
  pub skipped :
      t.stats.chunks_skipped
      ≡ s.stats.chunks_skipped + stale s.known_fingerprints s.known_chunk_ids (admitted w o stream)

-- If the batches of a state are filled and counted, with room for a chunk in the last one, then after a
-- stream the flushed batches hold, in this order, the chunks that were there and those of the stream that
-- pass the filter, cut to size, and have neither a known fingerprint nor a known id. Each batch has a chunk
-- and no more than the limit, none waits, and the chunks of the batches, the batches and the skipped
-- chunks are counted.
pub process_stream-FlushedInOrder :
    (w : Outside) (o : StreamOptions) (s : PipelineState) (stream : List Chunk)
    → 0 < o.max_batch
    → Batched o.max_batch s
    → FlushedInOrder w o s stream (process_stream w o stream s)
unfolding process_stream
process_stream-FlushedInOrder w o s stream m b =
    let a = process_all-Stepped w o s stream m b in
    let t = process_all w o s stream in
    let (done, left) =
      flush_list-Batched o.max_batch t.batch t m refl (Batched-Brimming o.max_batch t a.batched) in
    let last = flush_list-Wrote t.batch t refl in
    record {
      in_order = cc (
        last.added,
        left,
        append-nil (concat (flush t).flushed),
        append-nil (written t),
        a.wrote.added,
      );
      nothing_left = left;
      batched = done;
      skipped = omega (arith, last.counted, a.wrote.counted);
    }
