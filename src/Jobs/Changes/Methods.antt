-- ===== src/Jobs/Changes/Methods.antt =====
-- What each method does to the job table.
use wtfoc.Prelude.{
  ℕ, String, Bool, true, false, Option, none, some, ◌≡◌, refl, includes, text_has_eq, number_has_eq,
  is_some, arith, inl, inr, Bool-cases,
}
use wtfoc.Prelude.Dict
use wtfoc.Prelude.Dict.{Dict}
use wtfoc.Jobs.{JobStatus, queued, running, JobRecord, JobQueue, is_active, is_queued}
use wtfoc.Jobs.Operations.{
  dispatch_found, dispatch_job, ProgressUpdate, report_found, progressed, Settled, resolved,
  rejected, settle_found, settled_job, finish,
}
use wtfoc.Jobs.Queries.{cancel_found, cancel_job, cancel_requested}
use wtfoc.Jobs.Flight.{status_of, emit-jobs}
use wtfoc.Jobs.Changes.{
  Transition, stays, begins, unhandled, withdrawn, succeeds, fails, aborts, Moves, Change, kept,
  moved,
}

-- What a write to a record keeps of it.
abbrev SameJob : JobRecord → JobRecord → Type 0
SameJob job job' =
    (job'.id ≡ job.id)
    × (job'.wallet_address ≡ job.wallet_address)
    × (job'.collection_id ≡ job.collection_id)
    × (job'.parent_job_id ≡ job.parent_job_id)
    × (job'.idempotency_key ≡ job.idempotency_key)

Transition-from : {s s' t : JobStatus} → s ≡ s' → Transition s' t → Transition s t
Transition-from {t} e m = rw e m

dispatch_job-Change :
    (now : ℕ) (id : String) (q : JobQueue) (job : JobRecord)
    → Dict.get id q.jobs ≡ some job
    → job.status ≡ queued
    → Change q.jobs (dispatch_job now id q job).jobs
unfolding dispatch_job
dispatch_job-Change now id q job there waits = elim (Bool-cases (includes q.handlers job.type)) [
  | inl known ↦
      rw (known, emit-jobs)
        (moved id job (record job { status = running; started_at = some now; updated_at = now })
          there
          (record {
            status = Transition-from waits begins;
            id = refl;
            wallet = refl;
            collection = refl;
            parent = refl;
            key = refl;
            finished = ground arith;
          }))
  | inr unknown ↦ rw unknown (
      moved id job _ there (record {
        status = Transition-from waits unhandled;
        id = refl;
        wallet = refl;
        collection = refl;
        parent = refl;
        key = refl;
        finished = ground arith;
      }))
]

pub dispatch_found-Change :
    (now : ℕ) (id : String) (q : JobQueue) (found : Option JobRecord)
    → Dict.get id q.jobs ≡ found
    → Change q.jobs (dispatch_found now id q found).jobs
unfolding dispatch_found
dispatch_found-Change now id q none there = kept
dispatch_found-Change now id q (some job) there = elim (Bool-cases (is_queued job.status)) [
  | inl waits ↦ rw waits (dispatch_job-Change now id q job there (ground arith))
  | inr other ↦ rw other kept
]

pub report_found-Change :
    (now : ℕ) (id : String) (u : ProgressUpdate) (q : JobQueue) (found : Option JobRecord)
    → Dict.get id q.jobs ≡ found
    → Change q.jobs (report_found now id u q found).jobs
unfolding report_found
report_found-Change now id u q none there = kept
report_found-Change now id u q (some job) there = rw emit-jobs (
    moved id job (progressed now u job) there (record {
      status = stays job.status;
      id = refl;
      wallet = refl;
      collection = refl;
      parent = refl;
      key = refl;
      finished = ground arith;
    }))

settled_job-Transition :
    (aborted : Bool) (how : Settled) (job : JobRecord)
    → job.status ≡ running
    → Transition job.status (settled_job aborted how job).status
unfolding settled_job
settled_job-Transition true how job runs = Transition-from runs aborts
settled_job-Transition false resolved job runs = Transition-from runs succeeds
settled_job-Transition false (rejected name message) job runs = Transition-from runs fails

settled_job-SameJob :
    (aborted : Bool) (how : Settled) (job : JobRecord) → SameJob job (settled_job aborted how job)
unfolding settled_job
settled_job-SameJob aborted how job = ground arith

settled_job-ended :
    (aborted : Bool) (how : Settled) (job : JobRecord)
    → is_active (settled_job aborted how job).status ≡ false
unfolding settled_job
settled_job-ended aborted how job = ground arith

pub settle_found-Change :
    (now : ℕ) (id : String) (how : Settled) (q : JobQueue) (signal : Option Bool)
    (found : Option JobRecord)
    → Dict.get id q.jobs ≡ found
    → (is_some signal ≡ true → status_of found ≡ some running)
    → Change q.jobs (settle_found now id how q signal found).jobs
unfolding settle_found finish
settle_found-Change now id how q (some aborted) (some job) there runs =
    let same = settled_job-SameJob aborted how job in
    let is_running : job.status ≡ running = cc (runs refl) in
    rw emit-jobs (
      moved id job
        (record (settled_job aborted how job) { finished_at = some now; updated_at = now }) there
        (record {
          status = settled_job-Transition aborted how job is_running;
          id = same.0;
          wallet = same.1;
          collection = same.2;
          parent = same.3;
          key = same.4;
          finished = ground (arith, settled_job-ended aborted how job);
        }))
settle_found-Change now id how q (some aborted) none there runs = kept
settle_found-Change now id how q none found there runs = kept

cancel_requested-Moves :
    (now : ℕ) (job : JobRecord) → is_active job.status ≡ true → Moves job (cancel_requested now job)
cancel_requested-Moves now job live = elim (Bool-cases (is_queued job.status)) [
  | inl waits ↦ rw waits (record {
    status = Transition-from (ground arith) withdrawn;
    id = refl;
    wallet = refl;
    collection = refl;
    parent = refl;
    key = refl;
    finished = ground arith;
  })
  | inr runs ↦ rw runs (record {
    status = stays job.status;
    id = refl;
    wallet = refl;
    collection = refl;
    parent = refl;
    key = refl;
    finished = ground arith;
  })
]

pub cancel_found-Change :
    (now : ℕ) (id : String) (q : JobQueue) (found : Option JobRecord)
    → ((job : JobRecord) → found ≡ some job → Dict.get id q.jobs ≡ some job)
    → Change q.jobs (cancel_found now id q found).0.jobs
unfolding cancel_found cancel_job
cancel_found-Change now id q none there = kept
cancel_found-Change now id q (some job) there = elim (Bool-cases (is_active job.status)) [
  | inl live ↦
      rw (live, emit-jobs)
        (moved id job (cancel_requested now job) (there job refl)
          (cancel_requested-Moves now job live))
  | inr over ↦ rw over kept
]
