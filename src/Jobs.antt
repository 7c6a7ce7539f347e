-- ===== src/Jobs.antt =====
-- apps/web/server/jobs/types.ts and the state of `InMemoryJobQueue` of jobs/in-memory.ts. Times are
-- milliseconds, `null` is `none`, and a payload is a text that only the schemas look into.
pub mod Operations
pub mod Queries
pub mod Steps
pub mod Changes
pub mod Flight
pub mod Exclusive
pub mod Lifecycle
pub mod Idempotency
pub mod Wallets
pub mod Emission
mod Examples
use wtfoc.Prelude.{ℕ, String, Bool, true, false, Option, none, some, List, []}
use wtfoc.Prelude.Dict.{Dict}

pub data JobStatus : Type 0 where
  queued running succeeded failed cancelled : JobStatus

pub record JobRecord : Type 0 where
  pub id : String
  pub type : String
  pub wallet_address : String
  pub collection_id : Option String
  pub status : JobStatus
  pub phase : Option String
  pub current : ℕ
  pub total : ℕ
  pub message : Option String
  pub cancel_requested_at : Option ℕ
  pub started_at : Option ℕ
  pub finished_at : Option ℕ
  pub error_code : Option String
  pub error_message : Option String
  pub parent_job_id : Option String
  pub idempotency_key : Option String
  pub created_at : ℕ
  pub updated_at : ℕ

-- `parentJobId?` and `idempotencyKey?`: a missing field is `none`.
pub record EnqueueJobInput : Type 0 where
  pub type : String
  pub wallet_address : String
  pub collection_id : Option String
  pub payload : String
  pub parent_job_id : Option String
  pub idempotency_key : Option String

-- A job record is one mutable object: the map and the running handler share it, and it is never
-- removed, so a write through either is a write to `jobs`. A listener is known by a number, and the
-- calls that the listeners receive are in `emitted`. `microtasks` holds the dispatches that wait for
-- the next tick. `signals` holds the abort signal that each handler in flight was given, which lives
-- on when `stop` clears the map `abort_controllers`.
pub record JobQueue : Type 0 where
  pub jobs : Dict String JobRecord
  pub handlers : List String
  pub abort_controllers : List String
  pub signals : Dict String Bool
  pub subscribers : Dict String (List ℕ)
  pub emitted : List (ℕ × JobRecord)
  pub idempotency_index : Dict String String
  pub started : Bool
  pub microtasks : List (String × String)

abbrev pub empty_queue : JobQueue
empty_queue = record {
  jobs = [];
  handlers = [];
  abort_controllers = [];
  signals = [];
  subscribers = [];
  emitted = [];
  idempotency_index = [];
  started = false;
  microtasks = [];
}

-- The states that occupy the slot of a collection.
abbrev pub is_active : JobStatus → Bool
is_active queued = true
is_active running = true
is_active _ = false

abbrev pub is_queued : JobStatus → Bool
is_queued queued = true
is_queued _ = false
