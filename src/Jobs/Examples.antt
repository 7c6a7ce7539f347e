-- ===== src/Jobs/Examples.antt =====
-- Tests of the queue on one ingest job, and the theorems at states that it reaches.
use wtfoc.Prelude.{
  ◌≤◌, ◌++◌, ◌⊎◌, ap, String, Bool, true, false, not, Option, none, some, [], ◌∷◌, ◌≡◌, ◌≢◌, refl,
  ◌==◌, if◌then◌else◌, is_some, text_has_eq, number_has_eq, arith, ==_iff,
}
use wtfoc.Prelude.Dict
use wtfoc.Jobs.{succeeded, running, JobRecord, EnqueueJobInput, JobQueue, empty_queue, is_active}
use wtfoc.Jobs.Operations.{
  start, register, emit, enqueue, admission, returned, thrown, collection_busy, create, new_job,
  dispatch, dispatch_job, resolved, settle, settle_found, settled_job, finish, has_active_root,
  indexed_job, check_idempotency, check_payload, check_parent, check_slot,
}
use wtfoc.Jobs.Queries.{cancel}
use wtfoc.Jobs.Steps.{
  starts, registers, enqueues, dispatches, settles, Reach, here, next, Reachable,
}
use wtfoc.Jobs.Flight.{InFlight}
use wtfoc.Jobs.Flight.Reached.{Reachable-InFlight}
use wtfoc.Jobs.Changes.{Change}
use wtfoc.Jobs.Changes.Refined.{Step-Change}
use wtfoc.Jobs.Exclusive.{active_roots, active_roots-le-one}
use wtfoc.Jobs.Lifecycle.{Keeps, job_survives, Reachable-AllStamped}
use wtfoc.Jobs.Idempotency.{enqueue_again}
use wtfoc.Jobs.Wallets.{only, SameView, only-SameView}
use wtfoc.Jobs.Wallets.Apart.{cancelled_by, SameAnswers, CallBy-SameAnswers}
use wtfoc.Jobs.Emission.Notified.{changes_are_told, told_as_it_stands}
use wtfoc.Jobs.Emission.{calls, Unhandled}

abbrev schemas : String → Option (String → Bool)
schemas type = if type == "ingest" then some (λ payload. true) else none

abbrev input : EnqueueJobInput
input = record {
  type = "ingest";
  wallet_address = "0xa";
  collection_id = some "col";
  payload = "{}";
  parent_job_id = none;
  idempotency_key = some "key";
}

abbrev second : EnqueueJobInput
second = record input { idempotency_key = none }

abbrev job : JobRecord
job = new_job 5 "j1" input

abbrev idle : JobQueue
idle = register "ingest" (start empty_queue)

abbrev waiting : JobQueue
waiting = (enqueue schemas 5 "j1" idle input).0

abbrev working : JobQueue
working = dispatch 6 "j1" (record waiting { microtasks = [] })

abbrev done : JobQueue
done = settle 7 "j1" resolved working

named : ◌≢◌ {A = String} "j1" ""
named = ground (arith, ==_iff {K = String} "j1" "")

collection_named : ◌≢◌ {A = String} "col" ""
collection_named = ground (arith, ==_iff {K = String} "col" "")

key_named : ◌≢◌ {A = String} "key" ""
key_named = ground (arith, ==_iff {K = String} "key" "")

fresh : Dict.has {K = String} "j1" idle.jobs ≡ false
unfolding register start Dict.get
fresh = refl

reached_idle : Reachable schemas idle
reached_idle = next (next here (starts empty_queue)) (registers "ingest" (start empty_queue))

reached_waiting : Reachable schemas waiting
reached_waiting = next reached_idle (enqueues 5 "j1" idle input named fresh)

waiting_task : waiting.microtasks ≡ ("j1", "{}") ∷ []
unfolding enqueue create emit register start Dict.get Dict.set admission check_payload check_parent
    check_idempotency check_slot indexed_job has_active_root
waiting_task = refl

reached_working : Reachable schemas working
reached_working = next reached_waiting (dispatches 6 "j1" "{}" [] waiting waiting_task)

working_to_done : Reach schemas working done
working_to_done = next here (settles 7 "j1" resolved working)

waiting_job : Dict.get "j1" waiting.jobs ≡ some job
unfolding enqueue create emit register start Dict.get Dict.set admission check_payload check_parent
    check_idempotency check_slot indexed_job has_active_root
waiting_job = refl

abbrev running_job : JobRecord
running_job = record job { status = running; started_at = some 6; updated_at = 6 }

working_job : Dict.get "j1" working.jobs ≡ some running_job
unfolding enqueue create emit register start Dict.get Dict.set admission check_payload check_parent
    check_idempotency check_slot indexed_job has_active_root dispatch dispatch_job
working_job = refl

working_signal : Dict.get "j1" working.signals ≡ some false
unfolding enqueue create emit register start Dict.get Dict.set admission check_payload check_parent
    check_idempotency check_slot indexed_job has_active_root dispatch dispatch_job
working_signal = refl

-- A second root job of the collection is refused while the first waits.
second_busy : (enqueue schemas 6 "j2" waiting second).1 ≡ thrown (collection_busy "col")
unfolding enqueue create emit register start Dict.get Dict.set admission check_payload check_parent
    check_idempotency check_slot indexed_job has_active_root
second_busy = refl

waiting_index : Dict.get "key" waiting.idempotency_index ≡ some "j1"
unfolding enqueue create emit register start Dict.get Dict.set admission check_payload check_parent
    check_idempotency check_slot indexed_job has_active_root
waiting_index = refl

parses : check_payload schemas input ≡ none
unfolding check_payload
parses = refl

no_parent : check_parent waiting input ≡ none
unfolding check_parent
no_parent = refl

active_roots-le-one_example : active_roots "col" waiting.jobs ≤ 1
active_roots-le-one_example = active_roots-le-one "col" collection_named reached_waiting

Reachable-InFlight_example : InFlight working
Reachable-InFlight_example = Reachable-InFlight reached_working

Step-Change_example : Change idle.jobs waiting.jobs
Step-Change_example =
    Step-Change {schemas = schemas} (enqueues 5 "j1" idle input named fresh)
      (Reachable-InFlight reached_idle)

job_survives_example :
    (job' : JobRecord) × (Dict.get "j1" done.jobs ≡ some job') × Keeps running_job job'
job_survives_example = job_survives "j1" running_job reached_working working_to_done working_job

Reachable-AllStamped_example : is_active running_job.status ≡ not (is_some running_job.finished_at)
Reachable-AllStamped_example = Reachable-AllStamped reached_working "j1" running_job working_job

enqueue_again_example :
    (found : JobRecord) × (enqueue schemas 9 "j2" waiting input ≡ (waiting, returned found))
    × (Dict.get "j1" waiting.jobs ≡ some found)
    × (found.idempotency_key ≡ some "key")
enqueue_again_example =
    enqueue_again 9 "j2" input "key" "j1" reached_waiting waiting_index refl key_named parses
      no_parent

only-SameView_example : SameView "0xb" waiting (only "0xb" waiting)
only-SameView_example = only-SameView "0xb" waiting (Reachable-InFlight reached_waiting).is_map

other_wallet : ◌≢◌ {A = String} "0xb" "0xa"
other_wallet = ground (arith, ==_iff {K = String} "0xb" "0xa")

CallBy-SameAnswers_example : SameAnswers "0xa" waiting (cancel 6 "j1" "0xb" waiting).0
CallBy-SameAnswers_example =
    CallBy-SameAnswers "0xb" "0xa" reached_waiting (cancelled_by 6 "j1" waiting) other_wallet

abbrev done_job : JobRecord
done_job = record running_job { status = succeeded; finished_at = some 7; updated_at = 7 }

has_done_job : Dict.get "j1" done.jobs ≡ some done_job
unfolding enqueue create emit register start Dict.get Dict.set admission check_payload check_parent
    check_idempotency check_slot indexed_job has_active_root dispatch dispatch_job settle
    settle_found finish settled_job Dict.delete
has_done_job = refl

ended : running_job ≢ done_job
ended same = ground (arith, ap (λ job. job.status) same)

changes_are_told_example :
    (done.emitted ≡ working.emitted ++ calls "j1" done_job working)
    ⊎ (Unhandled working running_job done_job × (done.emitted ≡ working.emitted))
changes_are_told_example =
    changes_are_told {schemas = schemas} "j1" running_job done_job (settles 7 "j1" resolved working)
      working_job has_done_job ended

told_as_it_stands_example :
    (done.emitted ≡ working.emitted)
    ⊎ ((id : String) × (job : JobRecord) × (Dict.get id done.jobs ≡ some job)
        × (done.emitted ≡ working.emitted ++ calls id job working))
told_as_it_stands_example = told_as_it_stands {schemas = schemas} (settles 7 "j1" resolved working)
