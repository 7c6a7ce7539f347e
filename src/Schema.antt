-- ===== src/Schema.antt =====
-- The data that the components share: packages/common/src/schemas/chunk.ts. The content of a chunk is
-- cut up, so it is a list of code units; the other texts are native strings.
use wtfoc.Prelude.{ℕ, String, Bool, false, not, Option, none, some, List, ◌==◌, text_has_eq}
use wtfoc.Prelude.Dict.{Dict}
use wtfoc.Prelude.Text.{Text}

-- A text is falsy if it is missing or empty.
abbrev pub truthy : Option String → Bool
truthy none = false
truthy (some s) = not (s == "")

pub record Chunk : Type 0 where
  pub id : String
  pub content : Text
  pub source_type : String
  pub source : String
  pub source_url : Option String
  pub timestamp : Option String
  pub timestamp_kind : Option String
  pub chunk_index : ℕ
  pub total_chunks : ℕ
  pub metadata : Dict String String
  pub document_id : Option String
  pub document_version_id : Option String
  pub content_fingerprint : Option String
  pub raw_content : Option String

pub data LifecycleState : Type 0 where
  active archived superseded : LifecycleState

pub data Mutability : Type 0 where
  mutable_state append_only : Mutability

-- `DocumentCatalogEntry`. The two lists that the code reads behind `??` may be missing in a catalog
-- that an older version wrote.
pub record CatalogEntry : Type 0 where
  pub document_id : String
  pub current_version_id : String
  pub previous_version_ids : List String
  pub chunk_ids : List String
  pub superseded_chunk_ids : Option (List String)
  pub content_fingerprints : Option (List String)
  pub state : LifecycleState
  pub mutability : Mutability
  pub source_type : String
  pub updated_at : String

pub record DocumentCatalog : Type 0 where
  pub collection_id : String
  pub documents : Dict String CatalogEntry
