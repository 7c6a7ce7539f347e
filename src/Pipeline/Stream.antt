-- ===== src/Pipeline/Stream.antt =====
-- packages/ingest/src/pipeline/process-stream.ts: `processStream`, with the `flushBatch` that
-- orchestrate.ts gives it. The chunks of the adapter are a list. The runs are those in which no batch
-- fails, as a failure ends the run.
use wtfoc.Prelude.{
  ℕ, ◌+◌, String, Bool, not, ◌&&◌, ◌||◌, none, some, List, [], ◌∷◌, ◌++◌, includes, length, leb,
  ltb, or_else, if◌then◌else◌, text_has_eq,
}
use wtfoc.Prelude.Dict
use wtfoc.Prelude.Dict.{Dict}
use wtfoc.Prelude.Text.{units, text_ltb}
use wtfoc.Schema.{Chunk, truthy}
use wtfoc.Chunker.Rechunk.{rechunk_oversized}
use wtfoc.Pipeline.{PipelineState, DocumentFilters}
use wtfoc.Pipeline.Archive.{Outside, is_archived, archive_raw_source}
use wtfoc.Pipeline.Filters.{should_include_chunk, source_time, pick_archive_metadata}

pub record StreamOptions : Type 0 where
  pub filters : DocumentFilters
  pub max_batch : ℕ
  pub max_chunk_chars : ℕ
  pub source_key : String

abbrev pub track_time : String → PipelineState → PipelineState
track_time time s =
    if text_ltb (units s.max_timestamp) (units time) then record s { max_timestamp = time } else s

-- The raw source of a chunk that has one is archived, unless its version is.
abbrev pub archives : Chunk → PipelineState → Bool
archives c s =
    truthy c.raw_content
    && truthy c.document_id
    && truthy c.document_version_id
    && not
        (is_archived s.archive_index (or_else c.document_id "") (or_else c.document_version_id ""))

unfoldable pub archive_chunk : Outside → StreamOptions → Chunk → PipelineState → PipelineState
unfolding archive_raw_source
archive_chunk w o c s =
    let (index, id) =
      archive_raw_source w s.archive_index (or_else c.document_id "")
        (or_else c.document_version_id "") (or_else c.raw_content "")
        (record {
          source_type = c.source_type;
          source_url = c.source_url;
          source_key = some (o.source_key);
          file_path = Dict.get "filePath" c.metadata;
          metadata = pick_archive_metadata c.metadata;
        }) in
    record s {
      archive_index = index;
      stats = record s.stats { archived_count = s.stats.archived_count + 1 };
    }

-- The chunk goes behind those that its document has so far.
abbrev pub pend_chunk : Chunk → PipelineState → PipelineState
pend_chunk c s =
    if truthy c.document_id && truthy c.document_version_id
    then record s {
      catalog_pending_chunks =
          Dict.set (or_else c.document_id "")
            (or_else (Dict.get (or_else c.document_id "") s.catalog_pending_chunks) [] ++ c ∷ [])
            s.catalog_pending_chunks;
    }
    else s

abbrev pub is_known : PipelineState → Chunk → Bool
is_known s c =
    includes s.known_fingerprints (or_else c.content_fingerprint c.id)
    || includes s.known_chunk_ids c.id

-- `await deps.flushBatch(state.batch); state.batch = [];`, where an empty batch is not written.
abbrev pub flush_list : List Chunk → PipelineState → PipelineState
flush_list [] s = s
flush_list (c ∷ cs) s = record s {
  batch = [];
  batch_number = s.batch_number + 1;
  flushed = s.flushed ++ (c ∷ cs) ∷ [];
  stats = record s.stats {
    chunks_ingested = s.stats.chunks_ingested + length (c ∷ cs);
    batches_written = s.stats.batches_written + 1;
  };
}

abbrev pub flush : PipelineState → PipelineState
flush s = flush_list s.batch s

abbrev pub batch_chunk : ℕ → Chunk → PipelineState → PipelineState
batch_chunk max_batch c s =
    let t = record s { batch = s.batch ++ c ∷ [] } in
    if leb max_batch (length t.batch) then flush t else t

abbrev pub skip_chunk : PipelineState → PipelineState
skip_chunk s = record s { stats = record s.stats { chunks_skipped = s.stats.chunks_skipped + 1 } }

-- The body of the inner loop.
unfoldable pub process_chunk : ℕ → PipelineState → Chunk → PipelineState
process_chunk max_batch s c =
    let t = pend_chunk c s in if is_known t c then skip_chunk t else batch_chunk max_batch c t

unfoldable pub process_chunks : ℕ → PipelineState → List Chunk → PipelineState
unfolding process_chunk
process_chunks max_batch s [] = s
process_chunks max_batch s (c ∷ cs) = process_chunks max_batch (process_chunk max_batch s c) cs

abbrev pub count_rechunked : ℕ → PipelineState → PipelineState
count_rechunked n s =
    if ltb 1 n
    then record s { stats = record s.stats { rechunked_count = s.stats.rechunked_count + n } }
    else s

abbrev pub filter_chunk : PipelineState → PipelineState
filter_chunk s = record s {
  stats = record s.stats { chunks_filtered = s.stats.chunks_filtered + 1 };
}

-- The part before the filter.
unfoldable pub prepare_raw : Outside → StreamOptions → PipelineState → Chunk → PipelineState
unfolding archive_chunk
prepare_raw w o s c =
    let t = track_time (or_else (source_time c) "") s in
    if archives c t then archive_chunk w o c t else t

abbrev pub stripped : Chunk → Chunk
stripped c = record c { raw_content = none }

-- The chunks that a chunk of the adapter becomes.
unfoldable pub chunks_of : Outside → StreamOptions → Chunk → List Chunk
unfolding rechunk_oversized
chunks_of w o c = rechunk_oversized w.sha (stripped c ∷ []) (some (o.max_chunk_chars))

-- The body of the outer loop.
unfoldable pub process_raw : Outside → StreamOptions → PipelineState → Chunk → PipelineState
unfolding prepare_raw process_chunks chunks_of should_include_chunk
process_raw w o s c =
    let t = prepare_raw w o s c in
    let chunks = chunks_of w o c in
    if should_include_chunk w.parse_date (stripped c) o.filters
    then process_chunks o.max_batch (count_rechunked (length chunks) t) chunks
    else filter_chunk t

unfoldable pub process_all : Outside → StreamOptions → PipelineState → List Chunk → PipelineState
unfolding process_raw
process_all w o s [] = s
process_all w o s (c ∷ cs) = process_all w o (process_raw w o s c) cs

unfoldable pub process_stream : Outside → StreamOptions → List Chunk → PipelineState → PipelineState
unfolding process_all
process_stream w o stream s = flush (process_all w o s stream)
