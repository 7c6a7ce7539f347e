-- ===== src/Jobs/Changes.antt =====
-- The queue seen from its job table alone: one step keeps the table, moves one job along the
-- lifecycle, or adds one queued job to a free slot.
pub mod Enqueued
pub mod Methods
pub mod Refined
use wtfoc.Prelude.{
  ℕ, String, Bool, true, false, not, Option, none, some, List, ◌≡◌, ◌≢◌, text_has_eq, is_some,
}
use wtfoc.Prelude.Dict
use wtfoc.Prelude.Dict.{Dict}
use wtfoc.Jobs.{JobStatus, queued, running, succeeded, failed, cancelled, JobRecord, is_active}
use wtfoc.Jobs.Operations.{has_active_root}

-- The lifecycle of a job.
pub data Transition : JobStatus → JobStatus → Type 0 where
  stays : (s : JobStatus) → Transition s s
  begins : Transition queued running
  unhandled : Transition queued failed
  withdrawn : Transition queued cancelled
  succeeds : Transition running succeeded
  fails : Transition running failed
  aborts : Transition running cancelled

-- A move along the lifecycle keeps who owns the job and what it is for, and stamps the end of a job
-- when it ends.
pub record Moves (job job' : JobRecord) : Type 0 where
  pub status : Transition job.status job'.status
  pub id : job'.id ≡ job.id
  pub wallet : job'.wallet_address ≡ job.wallet_address
  pub collection : job'.collection_id ≡ job.collection_id
  pub parent : job'.parent_job_id ≡ job.parent_job_id
  pub key : job'.idempotency_key ≡ job.idempotency_key
  pub finished :
      (is_active job'.status ≡ true → job'.finished_at ≡ job.finished_at)
      × (is_active job.status ≡ true
          → is_active job'.status ≡ false
          → is_some job'.finished_at ≡ true)
      × (is_active job.status ≡ false → job'.finished_at ≡ job.finished_at)

pub record Admitted (jobs : Dict String JobRecord) (uuid : String) (job : JobRecord) : Type 0 where
  pub fresh : Dict.has uuid jobs ≡ false
  pub id : job.id ≡ uuid
  pub waits : job.status ≡ queued
  pub unfinished : job.finished_at ≡ none
  pub slot :
      (collection : String)
      → collection ≢ ""
      → job.collection_id ≡ some collection
      → job.parent_job_id ≡ none
      → has_active_root collection (Dict.values jobs) ≡ false

pub data Change (jobs : Dict String JobRecord) : Dict String JobRecord → Type 0 where
  kept : Change jobs jobs
  moved :
      (id : String) (job job' : JobRecord)
      → Dict.get id jobs ≡ some job
      → Moves job job'
      → Change jobs (Dict.set id job' jobs)
  admitted :
      (uuid : String) (job : JobRecord)
      → Admitted jobs uuid job
      → Change jobs (Dict.set uuid job jobs)
