-- ===== src/Jobs/Emission/Notified.antt =====
-- apps/web/server/jobs/in-memory.ts: what the subscribers of the jobs learn of a step of the queue.
use wtfoc.Prelude.{
  String, Bool, Option, some, ◌++◌, ◌≡◌, ◌≢◌, ◌⊎◌, inl, inr, refl, ◌==◌, text_has_eq, arith,
  ==_refl, ==_iff, Bool-cases,
}
use wtfoc.Prelude.Dict
use wtfoc.Prelude.Dict.{get-set}
use wtfoc.Jobs.{JobRecord, JobQueue}
use wtfoc.Jobs.Operations.{
  start, stop, register, enqueue, admission, dispatch, report_progress, settle, owned_by,
}
use wtfoc.Jobs.Queries.{owned, cancel, subscribe, unsubscribe}
use wtfoc.Jobs.Steps.{
  Step, starts, stops, registers, enqueues, dispatches, reports, settles, cancels, subscribes,
  unsubscribes,
}
use wtfoc.Jobs.Emission.{
  calls, Unhandled, Told, nothing, told, silent, enqueue_admitted-Told, dispatch_found-Told,
  report_found-Told, settle_found-Told, cancel_found-Told, bucket-Told, Told-before,
}

Step-Told :
    {schemas : String → Option (String → Bool)} {q r : JobQueue} → Step schemas q r → Told q r
unfolding start stop register enqueue dispatch report_progress settle cancel subscribe unsubscribe
Step-Told (starts q) = nothing refl refl
Step-Told (stops q) = nothing refl refl
Step-Told (registers type q) = nothing refl refl
Step-Told {schemas} (enqueues now uuid q input named fresh) =
    enqueue_admitted-Told now uuid q input (admission schemas q input)
Step-Told (dispatches now id payload rest q head) =
    Told-before
      (dispatch_found-Told now id (record q { microtasks = rest }) (Dict.get id q.jobs) refl)
Step-Told (reports now id update q) = report_found-Told now id update q (Dict.get id q.jobs)
Step-Told (settles now id how q) =
    settle_found-Told now id how q (Dict.get id q.signals) (Dict.get id q.jobs)
Step-Told (cancels now id wallet q) = cancel_found-Told now id q (owned (Dict.get id q.jobs) wallet)
Step-Told (subscribes id wallet listener q) =
    elim (Bool-cases (owned_by (Dict.get id q.jobs) wallet)) [
      | inl own ↦ rw own (nothing refl refl)
      | inr other ↦ rw other (nothing refl refl)
    ]
Step-Told (unsubscribes id listener q) = bucket-Told id listener q (Dict.get id q.subscribers)

Told-complete :
    (q r : JobQueue) (id : String) (old new : JobRecord)
    → Dict.get id q.jobs ≡ some old
    → Dict.get id r.jobs ≡ some new
    → old ≢ new
    → Told q r
    → (r.emitted ≡ q.emitted ++ calls id new q) ⊎ (Unhandled q old new × (r.emitted ≡ q.emitted))
Told-complete q r id old new was stands ne (nothing j e) = absurd (ne cc)
Told-complete q r id old new was stands ne (told i job j e) =
    let now_stands : Dict.get id (Dict.set i job q.jobs) ≡ some new = rw⁻¹ j stands in
    elim (Bool-cases (i == id)) [
      | inl same ↦
          let is_job : job ≡ new = ground (arith, get-set id i job q.jobs, same, now_stands) in
          inl (rw⁻¹ ((==_iff i id).0 same) (rw⁻¹ is_job e))
      | inr other ↦ absurd (ne (ground (arith, get-set id i job q.jobs, other, now_stands, was)))
    ]
Told-complete q r id old new was stands ne (silent i before job at u j e) =
    let now_stands : Dict.get id (Dict.set i job q.jobs) ≡ some new = rw⁻¹ j stands in
    elim (Bool-cases (i == id)) [
      | inl same ↦
          let is_job : job ≡ new = ground (arith, get-set id i job q.jobs, same, now_stands) in
          let is_old : before ≡ old = ground (arith, at, was, same, ==_iff i id) in
          inr (rw⁻¹ is_job (rw⁻¹ is_old u), e)
      | inr other ↦ absurd (ne (ground (arith, get-set id i job q.jobs, other, now_stands, was)))
    ]

Told-sound :
    (q r : JobQueue)
    → Told q r
    → (r.emitted ≡ q.emitted)
      ⊎ ((id : String) × (job : JobRecord) × (Dict.get id r.jobs ≡ some job)
          × (r.emitted ≡ q.emitted ++ calls id job q))
Told-sound q r (nothing j e) = inl e
Told-sound q r (told id job j e) =
    inr (id, job, rw j (ground (arith, get-set id id job q.jobs, ==_refl id)), e)
Told-sound q r (silent id old job at u j e) = inl e

-- If the record of a job changes in any field in a step of the queue, then the step calls each
-- subscriber of that job once, with the new record, and nobody else; or the job waited, no handler is
-- registered for its type, it ends as failed, and nobody is called.
pub changes_are_told :
    {schemas : String → Option (String → Bool)} {q r : JobQueue} (id : String) (old new : JobRecord)
    → Step schemas q r
    → Dict.get id q.jobs ≡ some old
    → Dict.get id r.jobs ≡ some new
    → old ≢ new
    → (r.emitted ≡ q.emitted ++ calls id new q) ⊎ (Unhandled q old new × (r.emitted ≡ q.emitted))
changes_are_told {q = q} {r = r} id old new step was stands ne =
    Told-complete q r id old new was stands ne (Step-Told step)

-- Whatever a step of the queue is, it calls nobody, or it calls each subscriber of one job, with the
-- record of that job which stands in the table after the step.
pub told_as_it_stands :
    {schemas : String → Option (String → Bool)} {q r : JobQueue}
    → Step schemas q r
    → (r.emitted ≡ q.emitted)
      ⊎ ((id : String) × (job : JobRecord) × (Dict.get id r.jobs ≡ some job)
          × (r.emitted ≡ q.emitted ++ calls id job q))
told_as_it_stands {q = q} {r = r} step = Told-sound q r (Step-Told step)
