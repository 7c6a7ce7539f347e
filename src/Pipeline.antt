-- ===== src/Pipeline.antt =====
-- packages/ingest/src/pipeline/types.ts: the state of an ingest run. `flushed` has the batches that
-- `flushBatch` was given, in their order.
pub mod Archive
pub mod Filters
pub mod Cursor
pub mod Stream
pub mod Donors
pub mod Run
pub mod Batches
pub mod Quiet
pub mod Stepped
pub mod Written
pub mod Pending
pub mod Known
pub mod Committed
pub mod Carried
pub mod Decided
pub mod Advance
mod Examples
use wtfoc.Prelude.{ℕ, String, Option, List, []}
use wtfoc.Prelude.Dict.{Dict}
use wtfoc.Schema.{Chunk, DocumentCatalog}

-- `RawSourceEntry`
pub record RawSourceEntry : Type 0 where
  pub document_id : String
  pub document_version_id : String
  pub media_type : String
  pub checksum : String
  pub byte_length : ℕ
  pub fetched_at : String
  pub storage_id : String
  pub source_type : String
  pub source_url : Option String
  pub source_key : Option String
  pub metadata : Option (Dict String String)

pub record RawSourceIndex : Type 0 where
  pub collection_id : String
  pub entries : Dict String RawSourceEntry

pub record DocumentFilters : Type 0 where
  pub document_ids : Option (List String)
  pub source_paths : Option (List String)
  pub changed_since_ms : Option ℕ

pub record PipelineStats : Type 0 where
  pub chunks_ingested : ℕ
  pub chunks_skipped : ℕ
  pub chunks_filtered : ℕ
  pub docs_superseded : ℕ
  pub archived_count : ℕ
  pub rechunked_count : ℕ
  pub reused_from_donors : ℕ
  pub donor_collection_names : List String
  pub batches_written : ℕ

pub record PipelineState : Type 0 where
  pub known_fingerprints : List String
  pub known_chunk_ids : List String
  pub archive_index : RawSourceIndex
  pub catalog : DocumentCatalog
  pub catalog_pending_chunks : Dict String (List Chunk)
  pub batch : List Chunk
  pub batch_number : ℕ
  pub stats : PipelineStats
  pub max_timestamp : String
  pub flushed : List (List Chunk)
