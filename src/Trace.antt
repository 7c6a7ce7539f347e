-- ===== src/Trace.antt =====
-- packages/search/src/trace and edge-resolution.ts: the data of a trace. Ids, sources and edge types
-- are texts that the engine takes apart or joins; the other texts are only carried along. A
-- confidence or a score is a double that is not NaN, known by its place in the order of the doubles.
pub mod Source
pub mod Indexing
pub mod Resolution
pub mod SourceIndex
pub mod Analysis
pub mod Chronology
pub mod Traversal
mod Examples
use wtfoc.Prelude.{ℕ, String, Option, List}
use wtfoc.Prelude.Dict.{Dict}
use wtfoc.Prelude.Text.{Text}

pub data WalkDirection : Type 0 where
  forward reverse : WalkDirection

-- `Edge`, less `provenance` and `structuredEvidence`, which no operation here reads.
pub record Edge : Type 0 where
  pub type : Text
  pub source_id : Text
  pub target_type : String
  pub target_id : Text
  pub evidence : String
  pub confidence : ℕ

-- `TraversalEdge`
pub record TraversalEdge : Type 0 where
  pub edge : Edge
  pub walk_direction : WalkDirection

pub record ChunkData : Type 0 where
  pub content : String
  pub source_type : String
  pub source : Text
  pub source_url : Option String
  pub storage_id : String
  pub timestamp : Option String
  pub timestamp_kind : Option String

-- A chunk of a `Segment`: its id, and the fields that `ChunkData` copies.
pub record SegmentChunk : Type 0 where
  pub id : Text
  pub chunk : ChunkData

-- `Segment`, less what only the store and the search read.
pub record Segment : Type 0 where
  pub chunks : List SegmentChunk
  pub edges : List Edge

pub record ChunkIndexes : Type 0 where
  pub by_id : Dict Text ChunkData
  pub by_source : Dict Text (List Text)
  pub by_repo_name : Dict Text (List Text)

-- `TraceHop`; a hop that no edge found has no edge, and no parent if it is a seed.
pub record Connection : Type 0 where
  pub edge_type : Option Text
  pub evidence : Option String
  pub confidence : ℕ
  pub walk_direction : Option WalkDirection

pub record TraceHop : Type 0 where
  pub chunk : ChunkData
  pub parent_hop_index : Option ℕ
  pub connection : Connection
