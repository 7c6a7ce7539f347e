-- ===== src/Jobs/Changes/Refined.antt =====
-- Each step of the queue is a change of its job table.
use wtfoc.Prelude.{
  ℕ, String, Bool, Option, none, some, List, refl, inl, inr, Bool-cases, text_has_eq,
}
use wtfoc.Prelude.Dict
use wtfoc.Jobs.{JobQueue}
use wtfoc.Jobs.Operations.{start, stop, register, dispatch, report_progress, settle, owned_by}
use wtfoc.Jobs.Queries.{cancel, owned, owned-eq-some, subscribe, unsubscribe, unsubscribe_bucket}
use wtfoc.Jobs.Steps.{
  Step, starts, stops, registers, enqueues, dispatches, reports, settles, cancels, subscribes,
  unsubscribes,
}
use wtfoc.Jobs.Flight.{InFlight}
use wtfoc.Jobs.Changes.{Change, kept}
use wtfoc.Jobs.Changes.Methods.{
  dispatch_found-Change, report_found-Change, settle_found-Change, cancel_found-Change,
}
use wtfoc.Jobs.Changes.Enqueued.{enqueue-Change}

bucket-Change :
    (id : String) (listener : ℕ) (q : JobQueue) (bucket : Option (List ℕ))
    → Change q.jobs (unsubscribe_bucket id listener q bucket).jobs
unfolding unsubscribe_bucket
bucket-Change id listener q none = kept
bucket-Change id listener q (some ls) = kept

-- Whatever the queue does in one step of a state in which the handlers in flight are those of the
-- running jobs (`InFlight`, as in every reachable state), its job table is left as it was, or one job
-- moves along its lifecycle with its owner, collection, parent and key kept, or one queued job enters
-- it, for whose collection no root job was active if it is a root job.
pub Step-Change :
    {schemas : String → Option (String → Bool)} {q q' : JobQueue}
    → Step schemas q q'
    → InFlight q
    → Change q.jobs q'.jobs
Step-Change (starts q) h = unfold start in kept
Step-Change (stops q) h = unfold stop in kept
Step-Change (registers type q) h = unfold register in kept
Step-Change {schemas} (enqueues now uuid q input named fresh) h =
    enqueue-Change schemas now uuid q input fresh
Step-Change (dispatches now id payload rest q head) h =
    unfold dispatch in
    dispatch_found-Change now id (record q { microtasks = rest }) (Dict.get id q.jobs) refl
Step-Change (reports now id update q) h =
    unfold report_progress in report_found-Change now id update q (Dict.get id q.jobs) refl
Step-Change (settles now id how q) h =
    unfold settle in
    settle_found-Change now id how q (Dict.get id q.signals) (Dict.get id q.jobs) refl (h.runs id)
Step-Change (cancels now id wallet q) h =
    unfold cancel in
    cancel_found-Change now id q (owned (Dict.get id q.jobs) wallet)
      (λ job e. (owned-eq-some (Dict.get id q.jobs) wallet job e).0)
Step-Change (subscribes id wallet listener q) h =
    unfold subscribe in
    elim (Bool-cases (owned_by (Dict.get id q.jobs) wallet)) [
      | inl own ↦ rw own kept
      | inr other ↦ rw other kept
    ]
Step-Change (unsubscribes id listener q) h =
    unfold unsubscribe in bucket-Change id listener q (Dict.get id q.subscribers)
