-- ===== src/Jobs/Flight.antt =====
-- The handlers in flight are exactly those of jobs that run: the invariant, and what it reads.
pub mod Writes
pub mod Methods
pub mod Reached
use wtfoc.Prelude.{
  ℕ, String, Bool, true, false, not, ◌&&◌, ◌||◌, Option, none, some, List, [], ◌∷◌, ◌++◌, ◌==◌, map,
  ◌≡◌, ◌≢◌, refl, sym, ◌∙◌, ap, if◌then◌else◌, includes, add, filter, or_else, text_has_eq,
  number_has_eq, is_some, arith, inl, inr, Bool-cases, Option-cases, includes-add, includes-filter,
  ==_iff, ==_refl,
}
use wtfoc.Prelude.Dict
use wtfoc.Prelude.Dict.{Dict, get-set, get-delete, has-set, has-delete}
use wtfoc.Prelude.Dict.Values.{IsMap, set-IsMap}
use wtfoc.Jobs.{
  JobStatus, queued, running, succeeded, failed, cancelled, JobRecord, EnqueueJobInput, JobQueue,
  is_active, is_queued, empty_queue,
}
use wtfoc.Jobs.Operations.{
  write, emit, emit_job, start, stop, register, abort_registered, enqueue, enqueue_admitted,
  admission, EnqueueOutcome, create, insert_job, new_job, schedule, dispatch, dispatch_found,
  dispatch_job, ProgressUpdate, report_progress, report_found, progressed, Settled, settle,
  settle_found, settled_job, resolved, rejected, finish,
}
use wtfoc.Jobs.Queries.{
  cancel, cancel_found, cancel_job, cancel_requested, owned, subscribe, unsubscribe,
  unsubscribe_bucket,
}
use wtfoc.Jobs.Steps.{
  Step, starts, stops, registers, enqueues, dispatches, reports, settles, cancels, subscribes,
  unsubscribes, Reach, here, next, Reachable,
}

abbrev pub status_of : Option JobRecord → Option JobStatus
status_of none = none
status_of (some job) = some job.status

pub record InFlight (q : JobQueue) : Type 0 where
  pub is_map : IsMap q.jobs
  -- a handler in flight is that of a running job
  pub runs :
      (id : String) → Dict.has id q.signals ≡ true → status_of (Dict.get id q.jobs) ≡ some running
  -- a running job has its handler in flight
  pub flies :
      (id : String) → status_of (Dict.get id q.jobs) ≡ some running → Dict.has id q.signals ≡ true
  -- only controllers of handlers in flight are registered
  pub registered :
      (id : String) → includes q.abort_controllers id ≡ true → Dict.has id q.signals ≡ true

-- `emit` writes to nothing but the log of the listeners' calls.
pub emit-jobs : (id : String) (q : JobQueue) → (emit id q).jobs ≡ q.jobs
unfolding emit emit_job
emit-jobs id q = ground arith

pub emit-signals : (id : String) (q : JobQueue) → (emit id q).signals ≡ q.signals
unfolding emit emit_job
emit-signals id q = ground arith

pub emit-controllers :
    (id : String) (q : JobQueue) → (emit id q).abort_controllers ≡ q.abort_controllers
unfolding emit emit_job
emit-controllers id q = ground arith

-- The invariant reads three fields of the queue.
pub InFlight-cong :
    {q q' : JobQueue}
    → q'.jobs ≡ q.jobs
    → q'.signals ≡ q.signals
    → q'.abort_controllers ≡ q.abort_controllers
    → InFlight q
    → InFlight q'
InFlight-cong {q} {q'} j s a h = record {
  is_map = rw j h.is_map;
  runs = λ id. rw (j, s) (h.runs id);
  flies = λ id. rw (j, s) (h.flies id);
  registered = λ id. rw (a, s) (h.registered id);
}

pub emit-InFlight : (id : String) (q : JobQueue) → InFlight q → InFlight (emit id q)
emit-InFlight id q = InFlight-cong (emit-jobs id q) (emit-signals id q) (emit-controllers id q)
