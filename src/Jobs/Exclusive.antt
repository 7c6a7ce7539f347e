-- ===== src/Jobs/Exclusive.antt =====
-- At most one mutating root job is active for a collection.
use wtfoc.Prelude.{
  ℕ, ◌≤◌, String, Bool, true, false, Option, none, some, List, [], ◌∷◌, ◌≡◌, ◌≢◌, refl, text_has_eq,
  arith, inl, inr, Bool-cases, ==_iff,
}
use wtfoc.Prelude.Dict
use wtfoc.Prelude.Dict.{Dict}
use wtfoc.Prelude.Counting.{count, count-set_fails, count-set_le, count-set_kept}
use wtfoc.Jobs.{JobStatus, JobRecord, JobQueue, is_active}
use wtfoc.Jobs.Operations.{is_active_root, has_active_root, is_some_eq, is_none}
use wtfoc.Jobs.Steps.{here, next, Reachable}
use wtfoc.Jobs.Flight.Reached.{Reachable-InFlight}
use wtfoc.Jobs.Changes.{
  Transition, stays, begins, unhandled, withdrawn, succeeds, fails, aborts, Moves, Admitted, Change,
  kept, moved, admitted,
}
use wtfoc.Jobs.Changes.Refined.{Step-Change}

-- How many root jobs occupy the slot of a collection.
abbrev pub active_roots : String → Dict String JobRecord → ℕ
active_roots collection jobs = count (is_active_root collection) (Dict.values jobs)

no_active_root :
    (collection : String) (jobs : List JobRecord)
    → has_active_root collection jobs ≡ false
    → count (is_active_root collection) jobs ≡ 0
unfolding has_active_root
no_active_root collection [] h = refl
no_active_root collection (job ∷ rest) h = ground (arith, no_active_root collection rest)

-- No transition leads from a final status to an active one.
pub Transition-active : {s t : JobStatus} → Transition s t → is_active t ≡ true → is_active s ≡ true
Transition-active (stays s) h = h
Transition-active begins h = refl
Transition-active unhandled h = cc
Transition-active withdrawn h = cc
Transition-active succeeds h = cc
Transition-active fails h = cc
Transition-active aborts h = cc

Moves-active_root :
    (collection : String) (job job' : JobRecord)
    → Moves job job'
    → is_active_root collection job' ≡ true
    → is_active_root collection job ≡ true
Moves-active_root collection job job' m h =
    rw (← m.collection, ← m.parent) (ground (arith, Transition-active m.status))

is_some_eq-eq : (o : Option String) (b : String) → is_some_eq o b ≡ true → o ≡ some b
is_some_eq-eq none b h = cc
is_some_eq-eq (some a) b h = ground (arith, ==_iff a b)

is_none-eq : (o : Option String) → is_none o ≡ true → o ≡ none
is_none-eq none h = refl
is_none-eq (some a) h = cc

active_root-collection :
    (collection : String) (job : JobRecord)
    → is_active_root collection job ≡ true
    → job.collection_id ≡ some collection
active_root-collection collection job h = is_some_eq-eq job.collection_id collection (ground arith)

active_root-parent :
    (collection : String) (job : JobRecord)
    → is_active_root collection job ≡ true
    → job.parent_job_id ≡ none
active_root-parent collection job h = is_none-eq job.parent_job_id (ground arith)

active_roots-set_new :
    (collection : String) (jobs : Dict String JobRecord) (uuid : String) (job : JobRecord)
    → collection ≢ ""
    → Admitted jobs uuid job
    → active_roots collection jobs ≤ 1
    → active_roots collection (Dict.set uuid job jobs) ≤ 1
active_roots-set_new collection jobs uuid job named a h =
    elim (Bool-cases (is_active_root collection job)) [
      | inr other ↦ omega (arith, count-set_fails uuid job (is_active_root collection) jobs other)
      | inl root ↦ omega (
        arith,
        count-set_le uuid job (is_active_root collection) jobs,
        no_active_root collection (Dict.values jobs) (
            a.slot collection named (active_root-collection collection job root)
              (active_root-parent collection job root)),
      )
    ]

Change-roots :
    (collection : String) {jobs jobs' : Dict String JobRecord}
    → collection ≢ ""
    → Change jobs jobs'
    → active_roots collection jobs ≤ 1
    → active_roots collection jobs' ≤ 1
Change-roots collection named kept h = h
Change-roots collection {jobs} named (moved id job job' there m) h = omega (
  arith,
  count-set_kept id job' job (is_active_root collection) jobs there
      (Moves-active_root collection job job' m),
)
Change-roots collection {jobs} named (admitted uuid job a) h =
    active_roots-set_new collection jobs uuid job named a h

-- In every state that the queue reaches, whatever was enqueued, dispatched, cancelled and settled in
-- between, at most one root job of a (named) collection is queued or running.
pub active_roots-le-one :
    {schemas : String → Option (String → Bool)} {q : JobQueue} (collection : String)
    → collection ≢ ""
    → Reachable schemas q
    → active_roots collection q.jobs ≤ 1
active_roots-le-one collection named here = omega arith
active_roots-le-one collection named (next r s) =
    Change-roots collection named (Step-Change s (Reachable-InFlight r))
      (active_roots-le-one collection named r)
