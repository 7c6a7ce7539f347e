-- ===== src/Jobs/Idempotency.antt =====
-- An idempotency key stands for one job for ever.
use mathlib.Core.Path.{subst}
use wtfoc.Prelude.{
  ℕ, String, Bool, true, ◌&&◌, Option, none, some, ◌≡◌, ◌≢◌, refl, ◌∙◌, ◌==◌, if◌then◌else◌,
  or_else, text_has_eq, arith, inl, inr, Bool-cases, ==_iff, ==_refl, ==-false,
}
use wtfoc.Prelude.Dict
use wtfoc.Prelude.Dict.{Dict, get-set}
use wtfoc.Schema.{truthy}
use wtfoc.Jobs.{JobRecord, EnqueueJobInput, JobQueue}
use wtfoc.Jobs.Operations.{
  start, stop, register, emit, emit_job, enqueue, enqueue_admitted, admission, EnqueueOutcome,
  returned, create, insert_job, new_job, dispatch, dispatch_found, dispatch_job, ProgressUpdate,
  report_progress, report_found, Settled, settle, settle_found, finish, indexed_job,
  check_idempotency, check_payload, check_parent,
}
use wtfoc.Jobs.Queries.{
  cancel, cancel_found, cancel_job, subscribe, unsubscribe, unsubscribe_bucket,
}
use wtfoc.Jobs.Steps.{
  Step, starts, stops, registers, enqueues, dispatches, reports, settles, cancels, subscribes,
  unsubscribes, here, next, Reachable,
}
use wtfoc.Jobs.Flight.Reached.{Reachable-InFlight}
use wtfoc.Jobs.Changes.{Change}
use wtfoc.Jobs.Changes.Enqueued.{create-jobs}
use wtfoc.Jobs.Changes.Refined.{Step-Change}
use wtfoc.Jobs.Lifecycle.{Change-Survives}

abbrev Index : JobQueue → Dict String String
Index q = q.idempotency_index

emit-index : (id : String) (q : JobQueue) → Index (emit id q) ≡ Index q
unfolding emit emit_job
emit-index id q = ground arith

dispatch-index : (now : ℕ) (id : String) (q : JobQueue) → Index (dispatch now id q) ≡ Index q
unfolding dispatch dispatch_found dispatch_job emit emit_job
dispatch-index now id q = ground arith

report-index :
    (now : ℕ) (id : String) (u : ProgressUpdate) (q : JobQueue)
    → Index (report_progress now id u q) ≡ Index q
unfolding report_progress report_found emit emit_job
report-index now id u q = ground arith

settle-index :
    (now : ℕ) (id : String) (how : Settled) (q : JobQueue) → Index (settle now id how q) ≡ Index q
unfolding settle settle_found finish emit emit_job
settle-index now id how q = ground arith

cancel-index :
    (now : ℕ) (id wallet : String) (q : JobQueue) → Index (cancel now id wallet q).0 ≡ Index q
unfolding cancel cancel_found cancel_job emit emit_job
cancel-index now id wallet q = ground arith

create-index :
    (now : ℕ) (uuid : String) (q : JobQueue) (input : EnqueueJobInput)
    → Index (create now uuid q input) ≡ Index (insert_job now uuid q input)
unfolding create
create-index now uuid q input = ground (arith, emit-index uuid (insert_job now uuid q input))

-- Every key of the index names a job that was made with it.
record KeyOf (q : JobQueue) (key id : String) : Type 0 where
  pub named : id ≢ ""
  pub job : JobRecord
  pub there : Dict.get id q.jobs ≡ some job
  pub made : job.idempotency_key ≡ some key

abbrev AllKeyed : JobQueue → Type 0
AllKeyed q = (key id : String) → Dict.get key (Index q) ≡ some id → KeyOf q key id

KeyOf-Change :
    {q q' : JobQueue} {key id : String} → Change q.jobs q'.jobs → KeyOf q key id → KeyOf q' key id
KeyOf-Change {id} c k =
    let (job', there, kept) = Change-Survives id k.job c k.there in
    record { named = k.named; job = job'; there = there; made = kept.key ∙ k.made }

same_index :
    {q q' : JobQueue} → Change q.jobs q'.jobs → Index q' ≡ Index q → AllKeyed q → AllKeyed q'
same_index c e h key id there = KeyOf-Change c (h key id (rw e at there))

create-KeyOf_new :
    (now : ℕ) (uuid : String) (q : JobQueue) (input : EnqueueJobInput) (key : String)
    → uuid ≢ ""
    → input.idempotency_key ≡ some key
    → KeyOf (create now uuid q input) key uuid
create-KeyOf_new now uuid q input key named given = record {
  named = named;
  job = new_job now uuid input;
  there = rw (
    create-jobs now uuid q input,
    get-set uuid uuid (new_job now uuid input) q.jobs,
    ==_refl uuid,
  );
  made = given;
}

insert_job-index :
    (now : ℕ) (uuid : String) (q : JobQueue) (input : EnqueueJobInput) (key : String)
    → Dict.get key (Index (insert_job now uuid q input)) ≡ (
        if truthy input.idempotency_key && or_else input.idempotency_key "" == key
        then some uuid
        else Dict.get key (Index q))
insert_job-index now uuid q input key =
    ground (arith, get-set key (or_else input.idempotency_key "") uuid (Index q))

given_key :
    (o : Option String) (key : String) → (truthy o && or_else o "" == key) ≡ true → o ≡ some key
given_key none key h = cc
given_key (some k) key h = ground (arith, ==_iff k key)

create-AllKeyed :
    (now : ℕ) (uuid : String) (q : JobQueue) (input : EnqueueJobInput)
    → uuid ≢ ""
    → Change q.jobs (create now uuid q input).jobs
    → AllKeyed q
    → AllKeyed (create now uuid q input)
create-AllKeyed now uuid q input named c h key id there =
    let at_insert =
      rw (create-index now uuid q input, insert_job-index now uuid q input key) at there in
    elim (Bool-cases (truthy input.idempotency_key && or_else input.idempotency_key "" == key)) [
      | inl new ↦
          let e : uuid ≡ id = cc (rw new at at_insert) in
          subst (KeyOf (create now uuid q input) key) e
            (create-KeyOf_new now uuid q input key named (given_key input.idempotency_key key new))
      | inr old ↦ KeyOf-Change c (h key id (rw old at at_insert))
    ]

enqueued-AllKeyed :
    (now : ℕ) (uuid : String) (q : JobQueue) (input : EnqueueJobInput) (o : Option EnqueueOutcome)
    → uuid ≢ ""
    → Change q.jobs (enqueue_admitted now uuid q input o).0.jobs
    → AllKeyed q
    → AllKeyed (enqueue_admitted now uuid q input o).0
unfolding enqueue_admitted
enqueued-AllKeyed now uuid q input (some outcome) named c h = h
enqueued-AllKeyed now uuid q input none named c h = create-AllKeyed now uuid q input named c h

subscribe-index :
    (id wallet : String) (listener : ℕ) (q : JobQueue)
    → Index (subscribe id wallet listener q) ≡ Index q
unfolding subscribe
subscribe-index id wallet listener q = ground arith

unsubscribe-index :
    (id : String) (listener : ℕ) (q : JobQueue) → Index (unsubscribe id listener q) ≡ Index q
unfolding unsubscribe unsubscribe_bucket
unsubscribe-index id listener q = ground arith

Step-AllKeyed :
    {schemas : String → Option (String → Bool)} {q q' : JobQueue}
    → Step schemas q q'
    → Change q.jobs q'.jobs
    → AllKeyed q
    → AllKeyed q'
Step-AllKeyed (starts q) c h = same_index {q = q} c (unfold start in refl) h
Step-AllKeyed (stops q) c h = same_index {q = q} c (unfold stop in refl) h
Step-AllKeyed (registers type q) c h = same_index {q = q} c (unfold register in refl) h
Step-AllKeyed {schemas} (enqueues now uuid q input named fresh) c h =
    unfold enqueue in
    enqueued-AllKeyed now uuid q input (admission schemas q input) named (unfold enqueue in c) h
Step-AllKeyed (dispatches now id payload rest q head) c h =
    same_index c (dispatch-index now id (record q { microtasks = rest })) h
Step-AllKeyed (reports now id update q) c h = same_index c (report-index now id update q) h
Step-AllKeyed (settles now id how q) c h = same_index c (settle-index now id how q) h
Step-AllKeyed (cancels now id wallet q) c h = same_index c (cancel-index now id wallet q) h
Step-AllKeyed (subscribes id wallet listener q) c h =
    same_index c (subscribe-index id wallet listener q) h
Step-AllKeyed (unsubscribes id listener q) c h = same_index c (unsubscribe-index id listener q) h

Reachable-AllKeyed :
    {schemas : String → Option (String → Bool)} {q : JobQueue} → Reachable schemas q → AllKeyed q
Reachable-AllKeyed here key id h = unfold Dict.get in cc
Reachable-AllKeyed (next r s) key id h =
    Step-AllKeyed s (Step-Change s (Reachable-InFlight r)) (Reachable-AllKeyed r) key id h

-- The job that the index names is found again.
indexed_job-KeyOf :
    (q : JobQueue) (key id : String)
    → Dict.get key (Index q) ≡ some id
    → (k : KeyOf q key id) → indexed_job q key ≡ some k.job
unfolding indexed_job
indexed_job-KeyOf q key id there k =
    rw (there, indexed_job) (ground (arith, ==-false id "" k.named, k.there))

-- In a reachable state, an enqueue whose key was used before creates nothing: if its payload parses
-- and its parent (if it names one) is a job of the same wallet, it returns the job that was made with
-- the key, and the queue is as it was; the slot of the collection is not even looked at.
pub enqueue_again :
    {schemas : String → Option (String → Bool)} {q : JobQueue} (now : ℕ) (uuid : String)
    (input : EnqueueJobInput) (key id : String)
    → Reachable schemas q
    → Dict.get key q.idempotency_index ≡ some id
    → input.idempotency_key ≡ some key
    → key ≢ ""
    → check_payload schemas input ≡ none
    → check_parent q input ≡ none
    → (job : JobRecord) × (enqueue schemas now uuid q input ≡ (q, returned job))
      × (Dict.get id q.jobs ≡ some job)
      × (job.idempotency_key ≡ some key)
unfolding enqueue enqueue_admitted admission check_idempotency
enqueue_again {q} now uuid input key id reached there given named parses parent =
    let k = Reachable-AllKeyed reached key id there in
    (
      k.job,
      simp (parses, parent, given, ==-false key "" named, indexed_job-KeyOf q key id there k),
      k.there,
      k.made,
    )
