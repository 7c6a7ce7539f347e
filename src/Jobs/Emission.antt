-- ===== src/Jobs/Emission.antt =====
-- apps/web/server/jobs/in-memory.ts: which changes of a job its subscribers are told of.
pub mod Notified
use wtfoc.Prelude.{
  ℕ, String, Bool, false, Option, none, some, List, [], ◌++◌, ◌≡◌, ◌≢◌, ◌⊎◌, inl, inr, map, refl,
  ◌∙◌, ◌==◌, includes, or_else, text_has_eq, arith, ==_refl, ==_iff, Bool-cases,
}
use wtfoc.Prelude.Dict
use wtfoc.Prelude.Dict.{get-set}
use wtfoc.Jobs.{queued, failed, JobRecord, EnqueueJobInput, JobQueue, is_active, is_queued}
use wtfoc.Jobs.Operations.{
  emit, emit_job, start, stop, register, EnqueueOutcome, enqueue, enqueue_admitted, admission,
  create, insert_job, new_job, schedule, dispatch, dispatch_found, dispatch_job, ProgressUpdate,
  report_progress, report_found, progressed, Settled, settle, settle_found, settled_job, finish,
  owned_by,
}
use wtfoc.Jobs.Flight.{emit-jobs}
use wtfoc.Jobs.Queries.{
  owned, cancel, cancel_found, cancel_job, cancel_requested, subscribe, unsubscribe,
  unsubscribe_bucket,
}
use wtfoc.Jobs.Steps.{
  Step, starts, stops, registers, enqueues, dispatches, reports, settles, cancels, subscribes,
  unsubscribes,
}

-- One call of each subscriber of a job.
abbrev pub calls : String → JobRecord → JobQueue → List (ℕ × JobRecord)
calls id job q = map (λ l. (l, job)) (or_else (Dict.get id q.subscribers) [])

-- The job ends as failed because no handler is registered for its type.
abbrev pub Unhandled : JobQueue → JobRecord → JobRecord → Type 0
Unhandled q old new =
    (old.status ≡ queued) × (includes q.handlers old.type ≡ false) × (new.status ≡ failed)

-- What a step writes to the table, and what it tells.
pub data Told (q r : JobQueue) : Type 0 where
  nothing : r.jobs ≡ q.jobs → r.emitted ≡ q.emitted → Told q r
  told :
      (id : String) (job : JobRecord)
      → r.jobs ≡ Dict.set id job q.jobs
      → r.emitted ≡ q.emitted ++ calls id job q
      → Told q r
  silent :
      (id : String) (old job : JobRecord)
      → Dict.get id q.jobs ≡ some old
      → Unhandled q old job
      → r.jobs ≡ Dict.set id job q.jobs
      → r.emitted ≡ q.emitted
      → Told q r

emit-emitted :
    (id : String) (q : JobQueue) (job : JobRecord)
    → Dict.get id q.jobs ≡ some job
    → (emit id q).emitted ≡ q.emitted ++ calls id job q
unfolding emit emit_job
emit-emitted id q job there = simp there

-- A write of a job that is followed by `#emit`.
emit-Told :
    (q r : JobQueue) (id : String) (job : JobRecord)
    → r.jobs ≡ Dict.set id job q.jobs
    → r.emitted ≡ q.emitted
    → r.subscribers ≡ q.subscribers
    → Told q (emit id r)
emit-Told q r id job jobs before listeners =
    let there : Dict.get id r.jobs ≡ some job =
      rw jobs (ground (arith, get-set id id job q.jobs, ==_refl id)) in
    told id job (emit-jobs id r ∙ jobs) (emit-emitted id r job there ∙ rw (before, listeners) refl)

-- A step is told of by the table and the log alone.
Told-after : {q r r' : JobQueue} → r'.jobs ≡ r.jobs → r'.emitted ≡ r.emitted → Told q r → Told q r'
Told-after j' e' (nothing j e) = nothing (j' ∙ j) (e' ∙ e)
Told-after j' e' (told id job j e) = told id job (j' ∙ j) (e' ∙ e)
Told-after j' e' (silent id old job at u j e) = silent id old job at u (j' ∙ j) (e' ∙ e)

pub Told-before :
    {q r : JobQueue} {tasks : List (String × String)}
    → Told (record q { microtasks = tasks }) r
    → Told q r
Told-before (nothing j e) = nothing j e
Told-before (told id job j e) = told id job j e
Told-before (silent id old job at u j e) = silent id old job at u j e

create-Told :
    (now : ℕ) (uuid : String) (q : JobQueue) (input : EnqueueJobInput)
    → Told q (create now uuid q input)
unfolding create
create-Told now uuid q input =
    Told-after (ground arith) (ground arith)
      (emit-Told q (insert_job now uuid q input) uuid (new_job now uuid input) refl refl refl)

pub enqueue_admitted-Told :
    (now : ℕ) (uuid : String) (q : JobQueue) (input : EnqueueJobInput) (o : Option EnqueueOutcome)
    → Told q (enqueue_admitted now uuid q input o).0
unfolding enqueue_admitted
enqueue_admitted-Told now uuid q input (some outcome) = nothing refl refl
enqueue_admitted-Told now uuid q input none = create-Told now uuid q input

dispatch_job-Told :
    (now : ℕ) (id : String) (q : JobQueue) (job : JobRecord)
    → Dict.get id q.jobs ≡ some job
    → job.status ≡ queued
    → Told q (dispatch_job now id q job)
unfolding dispatch_job
dispatch_job-Told now id q job there waits = elim (Bool-cases (includes q.handlers job.type)) [
  | inl known ↦ rw known (emit-Told q _ id _ refl refl refl)
  | inr unknown ↦ rw unknown (silent id job _ there (waits, unknown, refl) refl refl)
]

pub dispatch_found-Told :
    (now : ℕ) (id : String) (q : JobQueue) (found : Option JobRecord)
    → Dict.get id q.jobs ≡ found
    → Told q (dispatch_found now id q found)
unfolding dispatch_found
dispatch_found-Told now id q none there = nothing refl refl
dispatch_found-Told now id q (some job) there = elim (Bool-cases (is_queued job.status)) [
  | inl waits ↦ rw waits (dispatch_job-Told now id q job there (ground arith))
  | inr other ↦ rw other (nothing refl refl)
]

pub report_found-Told :
    (now : ℕ) (id : String) (u : ProgressUpdate) (q : JobQueue) (found : Option JobRecord)
    → Told q (report_found now id u q found)
unfolding report_found
report_found-Told now id u q none = nothing refl refl
report_found-Told now id u q (some job) = emit-Told q _ id (progressed now u job) refl refl refl

pub settle_found-Told :
    (now : ℕ) (id : String) (how : Settled) (q : JobQueue) (signal : Option Bool)
    (found : Option JobRecord)
    → Told q (settle_found now id how q signal found)
unfolding settle_found finish
settle_found-Told now id how q (some aborted) (some job) = emit-Told q _ id _ refl refl refl
settle_found-Told now id how q (some aborted) none = nothing refl refl
settle_found-Told now id how q none found = nothing refl refl

pub cancel_found-Told :
    (now : ℕ) (id : String) (q : JobQueue) (found : Option JobRecord)
    → Told q (cancel_found now id q found).0
unfolding cancel_found cancel_job
cancel_found-Told now id q none = nothing refl refl
cancel_found-Told now id q (some job) = elim (Bool-cases (is_active job.status)) [
  | inl live ↦ rw live (emit-Told q _ id (cancel_requested now job) refl refl refl)
  | inr over ↦ rw over (nothing refl refl)
]

pub bucket-Told :
    (id : String) (listener : ℕ) (q : JobQueue) (bucket : Option (List ℕ))
    → Told q (unsubscribe_bucket id listener q bucket)
unfolding unsubscribe_bucket
bucket-Told id listener q none = nothing refl refl
bucket-Told id listener q (some ls) = nothing refl refl
