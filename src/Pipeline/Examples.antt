-- ===== src/Pipeline/Examples.antt =====
-- A run over a document whose text has not changed, at which the theorems on runs are used.
use wtfoc.Prelude.{
  ℕ, String, true, false, Option, none, some, List, [], ◌∷◌, ◌≡◌, ◌≢◌, refl, map, length, arith,
  ==_iff, text_has_eq,
}
use wtfoc.Prelude.Text.{Text, units}
use wtfoc.Schema.{Chunk, CatalogEntry, DocumentCatalog, active, mutable_state}
use wtfoc.Prelude.Dict
use wtfoc.Catalog.{get_document}
use wtfoc.Pipeline.{PipelineState}
use wtfoc.Pipeline.Archive.{Outside}
use wtfoc.Pipeline.Stream.{StreamOptions, process_stream}
use wtfoc.Pipeline.Written.{FlushedInOrder, process_stream-FlushedInOrder}
use wtfoc.Pipeline.Known.{no_filters}
use wtfoc.Pipeline.Run.{StoredChunk, IngestOptions, initial_state, orchestrate}
use wtfoc.Pipeline.Advance.{Advances, orchestrate-Advances}
use wtfoc.Pipeline.Carried.{NothingWritten, orchestrate-NothingWritten}

abbrev outside : Outside
outside = record {
  lower = λ t. t;
  encode = λ s. units s;
  sha_bytes = λ b. "sum";
  sha = λ t. "hash";
  upload = λ b. "blob";
  now = "2026-01-01";
  parse_date = λ s. none;
}

abbrev stream_options : StreamOptions
stream_options = record {
  filters = no_filters;
  max_batch = 2;
  max_chunk_chars = 100;
  source_key = "repo:acme";
}

abbrev known_entry : CatalogEntry
known_entry = record {
  document_id = "a.md";
  current_version_id = "v1";
  previous_version_ids = [];
  chunk_ids = "c1" ∷ [];
  superseded_chunk_ids = some [];
  content_fingerprints = some ("hash" ∷ []);
  state = active;
  mutability = mutable_state;
  source_type = "markdown";
  updated_at = "2025-01-01";
}

abbrev known_catalog : DocumentCatalog
known_catalog = record { collection_id = "col"; documents = ("a.md", known_entry) ∷ [] }

abbrev options : IngestOptions
options = record {
  collection_id = "col";
  stream_options = stream_options;
  is_partial_run = false;
  repo_arg = none;
  append_only_types = "hn-story" ∷ [];
  repo_head_sha = none;
  existing_cursor_value = some "2025-01-01";
  catalog = some known_catalog;
  archive_index = none;
  renames = [];
  donors = none;
}

abbrev chunk : String → String → String → Chunk
chunk id version fingerprint = record {
  id = id;
  content = units "text";
  source_type = "markdown";
  source = "a.md";
  source_url = none;
  timestamp = none;
  timestamp_kind = none;
  chunk_index = 0;
  total_chunks = 1;
  metadata = [];
  document_id = some "a.md";
  document_version_id = some version;
  content_fingerprint = some fingerprint;
  raw_content = none;
}

abbrev no_segments : String → Option (List StoredChunk)
no_segments id = none

there : get_document known_catalog "a.md" ≡ some known_entry
unfolding get_document Dict.get
there = refl

changed : ◌≢◌ {A = String} "v1" "v2"
changed = ground (arith, ==_iff {K = String} "v1" "v2")

orchestrate-NothingWritten_example :
    NothingWritten known_entry "a.md"
      (chunk "c2" "v2" "hash" ∷ [])
      (orchestrate outside no_segments none options (chunk "c2" "v2" "hash" ∷ [])).0
      (orchestrate outside no_segments none options (chunk "c2" "v2" "hash" ∷ [])).1.catalog
orchestrate-NothingWritten_example =
    orchestrate-NothingWritten outside no_segments none options known_catalog known_entry "a.md"
      "v2" (chunk "c2" "v2" "hash") [] refl refl refl refl (omega arith) there changed refl refl
      refl refl

abbrev stream : List Chunk
stream =
    chunk "c3" "v2" "h3" ∷ chunk "c4" "v2" "hash" ∷ chunk "c5" "v2" "h5" ∷ chunk "c6" "v2" "h6" ∷ []

abbrev knowing : PipelineState
knowing = record (initial_state options) { known_fingerprints = "hash" ∷ [] }

process_stream-FlushedInOrder_example :
    FlushedInOrder outside stream_options knowing stream
      (process_stream outside stream_options stream knowing)
process_stream-FlushedInOrder_example =
    process_stream-FlushedInOrder outside stream_options knowing stream (omega arith)
      (record { all_sized = refl; room = omega arith; ingested = refl; numbered = refl })

flushed_ids :
    map (map (λ c. c.id)) (process_stream outside stream_options stream knowing).flushed
    ≡ ("c3" ∷ "c5" ∷ []) ∷ ("c6" ∷ []) ∷ []
unfolding process_stream wtfoc.Prelude.Text.text_ltb Dict.get
flushed_ids = refl

abbrev dated : List Chunk
dated =
    record (chunk "c3" "v2" "h3") { timestamp = some "2024-01-01" }
    ∷ record (chunk "c4" "v2" "h4") { timestamp = some "2024-03-03" }
    ∷ []

orchestrate-Advances_example :
    Advances dated
      (some "2025-01-01")
      (orchestrate outside no_segments none options dated).1.cursor_value
orchestrate-Advances_example = orchestrate-Advances outside no_segments none options dated refl refl
