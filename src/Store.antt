-- ===== src/Store.antt =====
-- packages/store: what the packages keep of a collection, less the files. The data are those of
-- packages/common/src/schemas/manifest.ts.
pub mod Diff
pub mod Keyed
pub mod Patched
pub mod Heads
pub mod Conflicts
mod Examples
use wtfoc.Prelude.{String, Option, List}

pub data ArtifactRole : Type 0 where
  source segment revision descriptor : ArtifactRole

pub record ArtifactSummaryEntry : Type 0 where
  pub artifact_id : String
  pub artifact_role : ArtifactRole
  pub source_scope : String
  pub content_identity : String
  pub storage_id : String
  pub ipfs_cid : Option String
  pub piece_cid : Option String

-- `CollectionRevision`, less the provenance.
pub record CollectionRevision : Type 0 where
  pub revision_id : String
  pub collection_id : String
  pub prev_revision_id : Option String
  pub artifact_summaries : List ArtifactSummaryEntry
  pub segment_refs : List String
  pub bundle_refs : List String
  pub created_at : String
  pub published_by : String
