-- ===== src/Jobs/Operations.antt =====
-- The methods of `InMemoryJobQueue` (apps/web/server/jobs/in-memory.ts). Each runs to its end without
-- an `await`, but for `#dispatch`, which is cut at the `await` of the handler: `dispatch` comes
-- before it, `settle` after it, and `report_progress` is what the handler may call meanwhile.
-- `now` is `new Date()`, `uuid` is `randomUUID()`, and `schemas` stands for the valibot schemas.
use Prim.Native.String.{◌++◌ as str_append}
use wtfoc.Prelude.{
  ℕ, String, Bool, true, false, not, ◌&&◌, Option, none, some, List, [], ◌∷◌, ◌++◌, ◌==◌, map,
  if◌then◌else◌, includes, add, filter, or_else, text_has_eq, number_has_eq,
}
use wtfoc.Prelude.Dict
use wtfoc.Schema.{truthy}
use wtfoc.Jobs.{
  queued, running, succeeded, failed, cancelled, JobRecord, EnqueueJobInput, JobQueue, is_active,
  is_queued,
}

abbrev pub write : JobQueue → String → JobRecord → JobQueue
write q id job = record q { jobs = Dict.set id job q.jobs }

-- `#emit`: every listener of the job gets a snapshot; what a listener throws is swallowed.
unfoldable pub emit_job : String → JobQueue → Option JobRecord → JobQueue
emit_job id q none = q
emit_job id q (some job) = record q {
  emitted = q.emitted ++ map (λ l. (l, job)) (or_else (Dict.get id q.subscribers) []);
}

unfoldable pub emit : String → JobQueue → JobQueue
unfolding emit_job
emit id q = emit_job id q (Dict.get id q.jobs)

unfoldable pub start : JobQueue → JobQueue
start q = record q { started = true }

-- `ac.abort()` for the controllers that are registered.
unfoldable pub abort_registered : List String → List (String × Bool) → List (String × Bool)
abort_registered registered [] = []
abort_registered registered ((id, aborted) ∷ rest) =
    (id, if includes registered id then true else aborted) ∷ abort_registered registered rest

unfoldable pub stop : JobQueue → JobQueue
stop q = record q {
  started = false;
  signals = abort_registered q.abort_controllers q.signals;
  abort_controllers = [];
}

unfoldable pub register : String → JobQueue → JobQueue
register type q = record q { handlers = add q.handlers type }

pub data EnqueueError : Type 0 where
  unknown_job_type invalid_payload parent_not_found : EnqueueError
  collection_busy : String → EnqueueError

pub data EnqueueOutcome : Type 0 where
  returned : JobRecord → EnqueueOutcome
  thrown : EnqueueError → EnqueueOutcome

-- The checks of `enqueue` run in order, and the first that has an outcome ends the call.
infixr 30 ◌otherwise◌
abbrev pub ◌otherwise◌ : Option EnqueueOutcome → Option EnqueueOutcome → Option EnqueueOutcome
none otherwise o = o
(some a) otherwise o = some a

unfoldable pub check_payload :
    (String → Option (String → Bool)) → EnqueueJobInput → Option EnqueueOutcome
check_payload schemas input = elim (schemas input.type) [
  | none ↦ some (thrown unknown_job_type)
  | some parses ↦ if parses input.payload then none else some (thrown invalid_payload)
]

abbrev pub owned_by : Option JobRecord → String → Bool
owned_by none wallet = false
owned_by (some job) wallet = job.wallet_address == wallet

unfoldable pub check_parent : JobQueue → EnqueueJobInput → Option EnqueueOutcome
check_parent q input =
    if truthy input.parent_job_id
      && not (owned_by (Dict.get (or_else input.parent_job_id "") q.jobs) input.wallet_address)
    then some (thrown parent_not_found)
    else none

-- The record that an earlier enqueue with the key made.
unfoldable pub indexed_job : JobQueue → String → Option JobRecord
indexed_job q key = elim (Dict.get key q.idempotency_index) [
  | none ↦ none
  | some id ↦ if truthy (some id) then Dict.get id q.jobs else none
]

unfoldable pub check_idempotency : JobQueue → EnqueueJobInput → Option EnqueueOutcome
check_idempotency q input =
    if truthy input.idempotency_key
    then elim (indexed_job q (or_else input.idempotency_key "")) [
      | none ↦ none
      | some existing ↦ some (returned existing)
    ]
    else none

abbrev pub is_some_eq : Option String → String → Bool
is_some_eq none b = false
is_some_eq (some a) b = a == b

abbrev pub is_none : Option String → Bool
is_none none = true
is_none (some a) = false

-- A root job that occupies the collection's slot.
abbrev pub is_active_root : String → JobRecord → Bool
is_active_root collection job =
    is_some_eq job.collection_id collection && is_none job.parent_job_id && is_active job.status

unfoldable pub has_active_root : String → List JobRecord → Bool
has_active_root collection [] = false
has_active_root collection (job ∷ rest) =
    if is_active_root collection job then true else has_active_root collection rest

unfoldable pub check_slot : JobQueue → EnqueueJobInput → Option EnqueueOutcome
check_slot q input =
    let collection = or_else input.collection_id "" in
    if truthy input.collection_id
      && not (truthy input.parent_job_id)
      && has_active_root collection (Dict.values q.jobs)
    then some (thrown (collection_busy collection))
    else none

unfoldable pub admission :
    (String → Option (String → Bool)) → JobQueue → EnqueueJobInput → Option EnqueueOutcome
admission schemas q input =
    check_payload schemas input
    otherwise check_parent q input
    otherwise check_idempotency q input
    otherwise check_slot q input

abbrev pub new_job : ℕ → String → EnqueueJobInput → JobRecord
new_job now uuid input = record {
  id = uuid;
  type = input.type;
  wallet_address = input.wallet_address;
  collection_id = input.collection_id;
  status = queued;
  phase = none;
  current = 0;
  total = 0;
  message = none;
  cancel_requested_at = none;
  started_at = none;
  finished_at = none;
  error_code = none;
  error_message = none;
  parent_job_id = input.parent_job_id;
  idempotency_key = input.idempotency_key;
  created_at = now;
  updated_at = now;
}

-- `this.#jobs.set(job.id, job)` and the write to the index.
abbrev pub insert_job : ℕ → String → JobQueue → EnqueueJobInput → JobQueue
insert_job now uuid q input = record q {
  jobs = Dict.set uuid (new_job now uuid input) q.jobs;
  idempotency_index =
      if truthy input.idempotency_key
      then Dict.set (or_else input.idempotency_key "") uuid q.idempotency_index
      else q.idempotency_index;
}

abbrev pub schedule : String → String → JobQueue → JobQueue
schedule id payload q =
    if q.started then record q { microtasks = q.microtasks ++ (id, payload) ∷ [] } else q

unfoldable pub create : ℕ → String → JobQueue → EnqueueJobInput → JobQueue
create now uuid q input = schedule uuid input.payload (emit uuid (insert_job now uuid q input))

unfoldable pub enqueue_admitted :
    ℕ → String → JobQueue → EnqueueJobInput → Option EnqueueOutcome → JobQueue × EnqueueOutcome
enqueue_admitted now uuid q input (some outcome) = (q, outcome)
enqueue_admitted now uuid q input none =
    (create now uuid q input, returned (new_job now uuid input))

unfoldable pub enqueue :
    (String → Option (String → Bool))
    → ℕ
    → String
    → JobQueue
    → EnqueueJobInput
    → JobQueue × EnqueueOutcome
unfolding enqueue_admitted
enqueue schemas now uuid q input = enqueue_admitted now uuid q input (admission schemas q input)

-- The part of `#dispatch` before the handler is awaited.
unfoldable pub dispatch_job : ℕ → String → JobQueue → JobRecord → JobQueue
dispatch_job now id q job =
    if includes q.handlers job.type
    then emit id
        (record (write q id
          (record job { status = running; started_at = some now; updated_at = now })) {
            abort_controllers = add q.abort_controllers id;
            signals =
                Dict.set id (elim job.cancel_requested_at [ none ↦ false | some t ↦ true ])
                  q.signals;
          })
    else write q id (record job {
      status = failed;
      error_code = some "NO_HANDLER";
      error_message = some (str_append "no handler registered for job type " job.type);
      finished_at = some now;
      updated_at = now;
    })

unfoldable pub dispatch_found : ℕ → String → JobQueue → Option JobRecord → JobQueue
dispatch_found now id q none = q
dispatch_found now id q (some job) = if is_queued job.status then dispatch_job now id q job else q

unfoldable pub dispatch : ℕ → String → JobQueue → JobQueue
unfolding dispatch_found
dispatch now id q = dispatch_found now id q (Dict.get id q.jobs)

pub record ProgressUpdate : Type 0 where
  pub phase : Option String
  pub current : Option ℕ
  pub total : Option ℕ
  pub message : Option String

-- `if (value !== undefined) field = value`
abbrev pub keep_or {ℓ} : {A : Type ℓ} → Option A → Option A → Option A
keep_or none old = old
keep_or (some a) old = some a

abbrev pub progressed : ℕ → ProgressUpdate → JobRecord → JobRecord
progressed now u job = record job {
  phase = keep_or u.phase job.phase;
  current = or_else u.current job.current;
  total = or_else u.total job.total;
  message = keep_or u.message job.message;
  updated_at = now;
}

unfoldable pub report_found : ℕ → String → ProgressUpdate → JobQueue → Option JobRecord → JobQueue
report_found now id update q none = q
report_found now id update q (some job) = emit id (write q id (progressed now update job))

unfoldable pub report_progress : ℕ → String → ProgressUpdate → JobQueue → JobQueue
unfolding report_found
report_progress now id update q = report_found now id update q (Dict.get id q.jobs)

-- How the handler's promise ends: an error has a name and a message.
pub data Settled : Type 0 where
  resolved : Settled
  rejected : String → String → Settled

unfoldable pub settled_job : Bool → Settled → JobRecord → JobRecord
settled_job true how job = record job { status = cancelled }
settled_job false resolved job = record job { status = succeeded }
settled_job false (rejected name message) job = record job {
  status = failed;
  error_code = some name;
  error_message = some message;
}

-- The `finally` block; the signal is dropped with the frame of `#dispatch`.
unfoldable pub finish : ℕ → String → JobQueue → JobRecord → JobQueue
finish now id q job =
    emit id (record (write q id (record job { finished_at = some now; updated_at = now })) {
      abort_controllers = filter (λ c. not (c == id)) q.abort_controllers;
      signals = Dict.delete id q.signals;
    })

unfoldable pub settle_found :
    ℕ → String → Settled → JobQueue → Option Bool → Option JobRecord → JobQueue
settle_found now id how q (some aborted) (some job) = finish now id q (settled_job aborted how job)
settle_found now id how q _ _ = q

-- The rest of `#dispatch`, of a handler that is in flight.
unfoldable pub settle : ℕ → String → Settled → JobQueue → JobQueue
unfolding settle_found
settle now id how q = settle_found now id how q (Dict.get id q.signals) (Dict.get id q.jobs)
