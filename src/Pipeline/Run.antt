-- ===== src/Pipeline/Run.antt =====
-- packages/ingest/src/pipeline/orchestrate.ts: `orchestrate`, and the other half of build-dedup-sets.ts.
-- `stream` is what the adapter gives, `head` the segments of the collection, if it has a head, and
-- `download` the chunks of a segment, or none if that fails. One reading of the clock stands for all.
use wtfoc.Prelude.{
  ℕ, String, Bool, false, not, ◌&&◌, ◌||◌, Option, none, some, List, [], ◌∷◌, length, nat_beq, ltb,
  or_else, add_all, if◌then◌else◌, text_has_eq,
}
use Prim.Native.String.{◌++◌ as text_append}
use wtfoc.Schema.{Chunk, DocumentCatalog, truthy}
use wtfoc.Catalog.{create_empty_catalog}
use wtfoc.Catalog.Update.{
  DedupSets, empty_sets, build_dedup_sets_from_catalog, update_catalog_from_chunks, handle_renames,
}
use wtfoc.Pipeline.{PipelineState, PipelineStats, RawSourceIndex}
use wtfoc.Pipeline.Archive.{Outside, create_empty_archive_index}
use wtfoc.Pipeline.Cursor.{CursorReason, decide_cursor_value}
use wtfoc.Pipeline.Stream.{StreamOptions, process_stream}
use wtfoc.Pipeline.Donors.{DonorReuse, reuse_donor_sources}

-- What the scan of a segment reads of a stored chunk.
pub record StoredChunk : Type 0 where
  pub id : String
  pub content_fingerprint : Option String

abbrev pub collect_stored : DedupSets → List StoredChunk → DedupSets
collect_stored sets [] = sets
collect_stored sets (c ∷ cs) =
    collect_stored
      (record {
        known_chunk_ids = add_all sets.known_chunk_ids (c.id ∷ []);
        known_fingerprints = elim c.content_fingerprint [
          | none ↦ sets.known_fingerprints
          | some fp ↦ add_all sets.known_fingerprints (fp ∷ [])
        ];
      })
      cs

abbrev pub collect_segments :
    (String → Option (List StoredChunk)) → DedupSets → List String → DedupSets
collect_segments download sets [] = sets
collect_segments download sets (id ∷ ids) =
    collect_segments download
      (elim (download id) [ none ↦ sets | some cs ↦ collect_stored sets cs ]) ids

unfoldable pub build_dedup_sets_from_segments :
    List String → (String → Option (List StoredChunk)) → DedupSets
build_dedup_sets_from_segments segments download = collect_segments download empty_sets segments

pub record IngestOptions : Type 0 where
  pub collection_id : String
  pub stream_options : StreamOptions
  pub is_partial_run : Bool
  pub repo_arg : Option String
  pub append_only_types : List String
  pub repo_head_sha : Option String
  pub existing_cursor_value : Option String
  pub catalog : Option DocumentCatalog
  pub archive_index : Option RawSourceIndex
  pub renames : List String
  pub donors : Option DonorReuse

abbrev pub empty_stats : PipelineStats
empty_stats = record {
  chunks_ingested = 0;
  chunks_skipped = 0;
  chunks_filtered = 0;
  docs_superseded = 0;
  archived_count = 0;
  rechunked_count = 0;
  reused_from_donors = 0;
  donor_collection_names = [];
  batches_written = 0;
}

abbrev pub initial_state : IngestOptions → PipelineState
initial_state o = record {
  known_fingerprints = [];
  known_chunk_ids = [];
  archive_index = or_else o.archive_index (create_empty_archive_index o.collection_id);
  catalog = or_else o.catalog (create_empty_catalog o.collection_id);
  catalog_pending_chunks = [];
  batch = [];
  batch_number = 0;
  stats = empty_stats;
  max_timestamp = "";
  flushed = [];
}

abbrev with_sets : DedupSets → PipelineState → PipelineState
with_sets sets s = record s {
  known_chunk_ids = sets.known_chunk_ids;
  known_fingerprints = sets.known_fingerprints;
}

-- The catalog is asked first, and the segments only if it has no entries.
unfoldable pub build_dedup :
    (String → Option (List StoredChunk)) → Option (List String) → PipelineState → PipelineState
unfolding build_dedup_sets_from_catalog build_dedup_sets_from_segments
build_dedup download head s =
    if ltb 0 (length s.catalog.documents)
    then with_sets (build_dedup_sets_from_catalog s.catalog) s
    else elim head [
      | none ↦ s
      | some segments ↦ with_sets (build_dedup_sets_from_segments segments download) s
    ]

unfoldable pub reuse_donors : Outside → Option DonorReuse → PipelineState → PipelineState
unfolding reuse_donor_sources
reuse_donors w none s = s
reuse_donors w (some d) s = reuse_donor_sources w d s

unfoldable pub commit_catalog : String → List String → PipelineState → PipelineState
unfolding update_catalog_from_chunks
commit_catalog now types s =
    let (catalog, n) = update_catalog_from_chunks now types s.catalog s.catalog_pending_chunks in
    record s { catalog = catalog; stats = record s.stats { docs_superseded = n } }

abbrev pub old_document_id : Option String → String → String
old_document_id repo path = text_append (or_else repo "") (text_append "/" path)

-- The new state, and whether a document was renamed.
unfoldable pub commit_renames : String → IngestOptions → PipelineState → PipelineState × Bool
unfolding handle_renames
commit_renames now o s =
    let (catalog, n) = handle_renames now s.catalog o.renames (old_document_id o.repo_arg) in
    if not o.is_partial_run && ltb 0 (length o.renames) && truthy o.repo_arg
    then (record s { catalog = catalog }, ltb 0 n)
    else (s, false)

pub record IngestResult : Type 0 where
  pub stats : PipelineStats
  pub empty : Bool
  pub cursor_value : Option String
  pub cursor_reason : CursorReason
  pub catalog_modified : Bool
  pub catalog : DocumentCatalog
  pub archive_index : RawSourceIndex
  pub catalog_documents_updated : ℕ

-- The state once the stream is through.
unfoldable pub streamed :
    Outside
    → (String → Option (List StoredChunk))
    → Option (List String)
    → IngestOptions
    → List Chunk
    → PipelineState
unfolding build_dedup process_stream reuse_donors
streamed w download head o stream =
    process_stream w o.stream_options stream
      (reuse_donors w o.donors (build_dedup download head (initial_state o)))

unfoldable pub finish_run : Outside → IngestOptions → PipelineState → PipelineState × IngestResult
unfolding decide_cursor_value commit_catalog commit_renames
finish_run w o s =
    let pending = ltb 0 (length s.catalog_pending_chunks) in
    let updated = if pending then commit_catalog w.now o.append_only_types s else s in
    let (t, renamed) = commit_renames w.now o updated in
    let decision = decide_cursor_value (record {
      is_partial_run = o.is_partial_run;
      repo_head_sha = o.repo_head_sha;
      max_timestamp = t.max_timestamp;
      existing_cursor_value = o.existing_cursor_value;
    }) in
    (
      t,
      record {
        stats = t.stats;
        empty = nat_beq t.stats.chunks_ingested 0 && nat_beq t.stats.chunks_skipped 0;
        cursor_value = decision.cursor_value;
        cursor_reason = decision.reason;
        catalog_modified = pending || renamed;
        catalog = t.catalog;
        archive_index = t.archive_index;
        catalog_documents_updated = length t.catalog_pending_chunks;
      },
    )

-- The final state, which holds the batches that were flushed, and the answer.
unfoldable pub orchestrate :
    Outside
    → (String → Option (List StoredChunk))
    → Option (List String)
    → IngestOptions
    → List Chunk
    → PipelineState × IngestResult
unfolding streamed finish_run
orchestrate w download head o stream = finish_run w o (streamed w download head o stream)
