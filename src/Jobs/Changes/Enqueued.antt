-- ===== src/Jobs/Changes/Enqueued.antt =====
-- apps/web/server/jobs/in-memory.ts: the changes that an enqueue makes.
use wtfoc.Prelude.{
  ℕ, String, Bool, false, Option, none, some, ◌≡◌, ◌≢◌, refl, ◌∙◌, ap, or_else, text_has_eq,
  number_has_eq, arith, ==_iff,
}
use wtfoc.Prelude.Dict
use wtfoc.Prelude.Dict.{Dict}
use wtfoc.Jobs.{JobRecord, EnqueueJobInput, JobQueue}
use wtfoc.Jobs.Operations.{
  emit, enqueue, enqueue_admitted, admission, check_payload, check_parent, check_idempotency,
  check_slot, has_active_root, EnqueueOutcome, create, insert_job, new_job, schedule, ◌otherwise◌,
}
use wtfoc.Jobs.Flight.{emit-jobs}
use wtfoc.Jobs.Changes.{Admitted, Change, kept, admitted}

-- A change followed by a notification.
pub emit-Change :
    (jobs : Dict String JobRecord) (id : String) (q : JobQueue)
    → Change jobs q.jobs
    → Change jobs (emit id q).jobs
emit-Change jobs id q c = rw emit-jobs c

pub schedule-jobs : (id payload : String) (q : JobQueue) → (schedule id payload q).jobs ≡ q.jobs
schedule-jobs id payload q = ground arith

pub create-jobs :
    (now : ℕ) (uuid : String) (q : JobQueue) (input : EnqueueJobInput)
    → (create now uuid q input).jobs ≡ Dict.set uuid (new_job now uuid input) q.jobs
unfolding create
create-jobs now uuid q input =
    schedule-jobs uuid input.payload _ ∙ emit-jobs uuid (insert_job now uuid q input)

-- No check has an outcome only if the slot of the collection is free.
pub otherwise-none :
    (a b : Option EnqueueOutcome) → (a otherwise b) ≡ none → (a ≡ none) × (b ≡ none)
otherwise-none none b h = (refl, h)
otherwise-none (some x) b h = cc

pub admission-slot :
    (schemas : String → Option (String → Bool)) (q : JobQueue) (input : EnqueueJobInput)
    → admission schemas q input ≡ none
    → check_slot q input ≡ none
unfolding admission
admission-slot schemas q input h =
    (otherwise-none (check_idempotency q input) _
      (otherwise-none (check_parent q input) _
        (otherwise-none (check_payload schemas input) _ h).1).1).1

pub check_slot-free :
    (q : JobQueue) (input : EnqueueJobInput) (collection : String)
    → check_slot q input ≡ none
    → collection ≢ ""
    → input.collection_id ≡ some collection
    → input.parent_job_id ≡ none
    → has_active_root collection (Dict.values q.jobs) ≡ false
unfolding check_slot
check_slot-free q input collection h named c p =
    ground (arith, ==_iff collection "", ap (λ o. or_else o "") c)

pub new_job-Admitted :
    (now : ℕ) (uuid : String) (q : JobQueue) (input : EnqueueJobInput)
    → Dict.has uuid q.jobs ≡ false
    → check_slot q input ≡ none
    → Admitted q.jobs uuid (new_job now uuid input)
new_job-Admitted now uuid q input fresh free = record {
  fresh = fresh;
  id = refl;
  waits = refl;
  unfinished = refl;
  slot = λ collection named c p. check_slot-free q input collection free named c p;
}

pub enqueue_admitted-Change :
    (now : ℕ) (uuid : String) (q : JobQueue) (input : EnqueueJobInput) (o : Option EnqueueOutcome)
    → Dict.has uuid q.jobs ≡ false
    → (o ≡ none → check_slot q input ≡ none)
    → Change q.jobs (enqueue_admitted now uuid q input o).0.jobs
unfolding enqueue_admitted
enqueue_admitted-Change now uuid q input (some outcome) fresh free = kept
enqueue_admitted-Change now uuid q input none fresh free =
    rw create-jobs
      (admitted uuid (new_job now uuid input) (new_job-Admitted now uuid q input fresh (free refl)))

pub enqueue-Change :
    (schemas : String → Option (String → Bool)) (now : ℕ) (uuid : String) (q : JobQueue)
    (input : EnqueueJobInput)
    → Dict.has uuid q.jobs ≡ false
    → Change q.jobs (enqueue schemas now uuid q input).0.jobs
unfolding enqueue
enqueue-Change schemas now uuid q input fresh =
    enqueue_admitted-Change now uuid q input (admission schemas q input) fresh
      (admission-slot schemas q input)
