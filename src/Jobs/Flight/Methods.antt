-- ===== src/Jobs/Flight/Methods.antt =====
-- Each method keeps the invariant of the handlers in flight.
use wtfoc.Prelude.{
  ℕ, String, Bool, true, false, Option, none, some, List, [], ◌∷◌, ◌≡◌, ◌≢◌, refl, includes,
  text_has_eq, number_has_eq, arith, inl, inr, Bool-cases,
}
use wtfoc.Prelude.Dict
use wtfoc.Prelude.Dict.{Dict, get-set, get-delete, has-set, has-delete}
use wtfoc.Jobs.{queued, running, JobRecord, EnqueueJobInput, JobQueue, is_active, is_queued}
use wtfoc.Jobs.Operations.{
  write, stop, abort_registered, enqueue, enqueue_admitted, admission, EnqueueOutcome, create,
  insert_job, new_job, schedule, dispatch, dispatch_found, dispatch_job, ProgressUpdate,
  report_found, progressed, Settled, settle_found, settled_job, resolved, rejected, finish,
}
use wtfoc.Jobs.Queries.{cancel_found, cancel_job, cancel_requested}
use wtfoc.Jobs.Flight.{InFlight, InFlight-cong, emit-InFlight}
use wtfoc.Jobs.Flight.Writes.{
  write-InFlight, idle-InFlight, signals-InFlight, begin-InFlight, end-InFlight, abort_one-InFlight,
}

pub has-abort_registered :
    (registered : List String) (signals : Dict String Bool) (j : String)
    → Dict.has j (abort_registered registered signals) ≡ Dict.has j signals
unfolding abort_registered Dict.get
has-abort_registered registered [] j = refl
has-abort_registered registered ((id, b) ∷ rest) j =
    ground (arith, has-abort_registered registered rest j)

pub stop-InFlight : (q : JobQueue) → InFlight q → InFlight (stop q)
unfolding stop
stop-InFlight q h =
    let h' =
      signals-InFlight q (abort_registered q.abort_controllers q.signals)
        (has-abort_registered q.abort_controllers q.signals) h in
    record { is_map = h'.is_map; runs = h'.runs; flies = h'.flies; registered = λ j f. cc }

pub schedule-InFlight :
    (id payload : String) (q : JobQueue) → InFlight q → InFlight (schedule id payload q)
schedule-InFlight id payload q = InFlight-cong (ground arith) (ground arith) (ground arith)

pub create-InFlight :
    (now : ℕ) (uuid : String) (q : JobQueue) (input : EnqueueJobInput)
    → Dict.has uuid q.jobs ≡ false
    → InFlight q
    → InFlight (create now uuid q input)
unfolding create
create-InFlight now uuid q input fresh h = schedule-InFlight uuid input.payload _ (
    emit-InFlight uuid (insert_job now uuid q input) (
      InFlight-cong refl refl refl
        (idle-InFlight uuid q (new_job now uuid input) (ground arith) (λ e. cc) h)))

pub enqueue-InFlight :
    (schemas : String → Option (String → Bool)) (now : ℕ) (uuid : String) (q : JobQueue)
    (input : EnqueueJobInput)
    → Dict.has uuid q.jobs ≡ false
    → InFlight q
    → InFlight (enqueue schemas now uuid q input).0
unfolding enqueue
enqueue-InFlight schemas now uuid q input fresh h = by_outcome (admission schemas q input)
  where
    by_outcome : (o : Option EnqueueOutcome) → InFlight (enqueue_admitted now uuid q input o).0
    by_outcome (some outcome) = h
    by_outcome none = create-InFlight now uuid q input fresh h

pub dispatch_job-InFlight :
    (now : ℕ) (id : String) (q : JobQueue) (job : JobRecord)
    → Dict.get id q.jobs ≡ some job
    → job.status ≡ queued
    → InFlight q
    → InFlight (dispatch_job now id q job)
unfolding dispatch_job
dispatch_job-InFlight now id q job there waits h =
    elim (Bool-cases (includes q.handlers job.type)) [
      | inl known ↦ rw known (emit-InFlight id _ (begin-InFlight id q _ _ refl h))
      | inr unknown ↦ rw unknown (idle-InFlight id q _ (rw there (λ e. cc)) (λ e. cc) h)
    ]

pub dispatch_found-InFlight :
    (now : ℕ) (id : String) (q : JobQueue) (found : Option JobRecord)
    → Dict.get id q.jobs ≡ found
    → InFlight q
    → InFlight (dispatch_found now id q found)
unfolding dispatch_found
dispatch_found-InFlight now id q none there h = h
dispatch_found-InFlight now id q (some job) there h = elim (Bool-cases (is_queued job.status)) [
  | inl waits ↦ rw waits (dispatch_job-InFlight now id q job there (ground arith) h)
  | inr other ↦ rw other h
]

pub dispatch-InFlight :
    (now : ℕ) (id : String) (q : JobQueue) → InFlight q → InFlight (dispatch now id q)
unfolding dispatch
dispatch-InFlight now id q = dispatch_found-InFlight now id q (Dict.get id q.jobs) refl

pub report_found-InFlight :
    (now : ℕ) (id : String) (u : ProgressUpdate) (q : JobQueue) (found : Option JobRecord)
    → Dict.get id q.jobs ≡ found
    → InFlight q
    → InFlight (report_found now id u q found)
unfolding report_found
report_found-InFlight now id u q none there h = h
report_found-InFlight now id u q (some job) there h =
    emit-InFlight id _ (write-InFlight id q job (progressed now u job) there refl h)

pub settled_job-ended :
    (aborted : Bool) (how : Settled) (job : JobRecord)
    → (settled_job aborted how job).status ≢ running
unfolding settled_job
settled_job-ended true how job e = cc
settled_job-ended false resolved job e = cc
settled_job-ended false (rejected name message) job e = cc

pub settle_found-InFlight :
    (now : ℕ) (id : String) (how : Settled) (q : JobQueue) (signal : Option Bool)
    (found : Option JobRecord)
    → InFlight q
    → InFlight (settle_found now id how q signal found)
unfolding settle_found finish
settle_found-InFlight now id how q (some aborted) (some job) h = emit-InFlight id _ (
    end-InFlight id q
      (record (settled_job aborted how job) { finished_at = some now; updated_at = now })
      (settled_job-ended aborted how job) h)
settle_found-InFlight now id how q (some aborted) none h = h
settle_found-InFlight now id how q none found h = h

pub requested-InFlight :
    (now : ℕ) (id : String) (q : JobQueue) (job : JobRecord)
    → Dict.get id q.jobs ≡ some job
    → InFlight q
    → InFlight (write q id (cancel_requested now job))
requested-InFlight now id q job there h = elim (Bool-cases (is_queued job.status)) [
  | inl waits ↦
      idle-InFlight id q (cancel_requested now job) (rw there (ground arith)) (ground arith) h
  | inr other ↦ write-InFlight id q job (cancel_requested now job) there (ground arith) h
]

pub cancel_found-InFlight :
    (now : ℕ) (id : String) (q : JobQueue) (found : Option JobRecord)
    → ((job : JobRecord) → found ≡ some job → Dict.get id q.jobs ≡ some job)
    → InFlight q
    → InFlight (cancel_found now id q found).0
unfolding cancel_found cancel_job
cancel_found-InFlight now id q none there h = h
cancel_found-InFlight now id q (some job) there h = elim (Bool-cases (is_active job.status)) [
  | inl live ↦ rw live (
      emit-InFlight id _ (
        abort_one-InFlight id (write q id (cancel_requested now job))
          (requested-InFlight now id q job (there job refl) h)))
  | inr over ↦ rw over h
]
