-- ===== src/Repository.antt =====
-- apps/web/server/db/repository.ts and the state of `InMemoryRepository` of db/memory.ts. Times are
-- milliseconds, `null` is `none`, and encrypted keys are the lists of their bytes.
pub mod Sessions
pub mod Collections
pub mod AuditLog
mod Examples
use wtfoc.Prelude.{ℕ, String, Option, List, []}
use wtfoc.Prelude.Dict.{Dict}

pub record WalletSession : Type 0 where
  pub id : String
  pub wallet_address : String
  pub cookie_token : String
  pub session_key_encrypted : Option (List ℕ)
  pub session_key_wallet_address : Option String
  pub session_key_expires_at : Option ℕ
  pub chain_id : ℕ
  pub created_at : ℕ
  pub last_used_at : ℕ
  pub revoked_at : Option ℕ

-- The maps of the sessions: by id, and the two indexes.
pub record SessionStore : Type 0 where
  pub sessions : Dict String WalletSession
  pub session_by_token : Dict String String
  pub session_by_wallet : Dict String String

abbrev pub empty_sessions : SessionStore
empty_sessions = record { sessions = []; session_by_token = []; session_by_wallet = [] }

pub data CollectionStatus : Type 0 where
  creating ingesting ready ingestion_failed importing import_failed : CollectionStatus
  promoting promoted promotion_failed : CollectionStatus

pub data PromoteCheckpoint : Type 0 where
  car_built uploaded on_chain_written : PromoteCheckpoint

pub record Collection : Type 0 where
  pub id : String
  pub name : String
  pub wallet_address : String
  pub status : CollectionStatus
  pub manifest_cid : Option String
  pub piece_cid : Option String
  pub car_root_cid : Option String
  pub promote_checkpoint : Option PromoteCheckpoint
  pub source_count : ℕ
  pub segment_count : Option ℕ
  pub created_at : ℕ
  pub updated_at : ℕ

pub data SourceType : Type 0 where
  github website hackernews : SourceType

pub data SourceStatus : Type 0 where
  pending source_ingesting complete failed : SourceStatus

pub record Source : Type 0 where
  pub id : String
  pub collection_id : String
  pub source_type : SourceType
  pub identifier : String
  pub status : SourceStatus
  pub error_message : Option String
  pub chunk_count : Option ℕ
  pub created_at : ℕ
  pub updated_at : ℕ

pub record SourceInput : Type 0 where
  pub source_type : SourceType
  pub identifier : String

pub record CreateCollectionInput : Type 0 where
  pub name : String
  pub wallet_address : String
  pub sources : List SourceInput

-- The maps of the collections. The `Set` of the ids of a collection's sources is a list without
-- repetitions.
pub record CollectionStore : Type 0 where
  pub collections : Dict String Collection
  pub sources : Dict String Source
  pub sources_by_collection : Dict String (List String)

abbrev pub empty_collections : CollectionStore
empty_collections = record { collections = []; sources = []; sources_by_collection = [] }
