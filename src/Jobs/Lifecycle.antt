-- ===== src/Jobs/Lifecycle.antt =====
-- The lifecycle of one job over any run of the queue.
use mathlib.Core.Path.{subst}
use wtfoc.Jobs.Exclusive.{Transition-active}
use wtfoc.Prelude.{
  ap, ◌==◌, String, Bool, false, not, Option, some, ◌≡◌, refl, ◌∙◌, is_some, is_some, text_has_eq,
  arith, inl, inr, Bool-cases, ==_iff,
}
use wtfoc.Prelude.Dict
use wtfoc.Prelude.Dict.{Dict, get-set}
use wtfoc.Jobs.{JobStatus, JobRecord, JobQueue, is_active}
use wtfoc.Jobs.Steps.{Reach, here, next, Reachable}
use wtfoc.Jobs.Flight.{InFlight}
use wtfoc.Jobs.Flight.Reached.{Reachable-InFlight, Step-InFlight}
use wtfoc.Jobs.Changes.{
  Transition, stays, begins, unhandled, withdrawn, succeeds, fails, aborts, Moves, Admitted, Change,
  kept, moved, admitted,
}
use wtfoc.Jobs.Changes.Refined.{Step-Change}

-- What no later step takes from a job: who owns it and what it is for, and, once it has ended, how
-- and when.
pub record Keeps (job job' : JobRecord) : Type 0 where
  pub id : job'.id ≡ job.id
  pub wallet : job'.wallet_address ≡ job.wallet_address
  pub collection : job'.collection_id ≡ job.collection_id
  pub parent : job'.parent_job_id ≡ job.parent_job_id
  pub key : job'.idempotency_key ≡ job.idempotency_key
  pub final :
      is_active job.status ≡ false
      → (job'.status ≡ job.status) × (job'.finished_at ≡ job.finished_at)

Keeps-refl : (job : JobRecord) → Keeps job job
Keeps-refl job = record {
  id = refl;
  wallet = refl;
  collection = refl;
  parent = refl;
  key = refl;
  final = λ h. (refl, refl);
}

Keeps-trans : {a b c : JobRecord} → Keeps a b → Keeps b c → Keeps a c
Keeps-trans {a} {b} {c} k l = record {
  id = l.id ∙ k.id;
  wallet = l.wallet ∙ k.wallet;
  collection = l.collection ∙ k.collection;
  parent = l.parent ∙ k.parent;
  key = l.key ∙ k.key;
  final = λ h. final_trans h (k.final h);
}
  where
    final_trans :
        is_active a.status ≡ false
        → (b.status ≡ a.status) × (b.finished_at ≡ a.finished_at)
        → (c.status ≡ a.status) × (c.finished_at ≡ a.finished_at)
    final_trans h (s, f) = let (s', f') = l.final (rw s h) in (s' ∙ s, f' ∙ f)

Transition-final : {s t : JobStatus} → Transition s t → is_active s ≡ false → t ≡ s
Transition-final (stays s) h = refl
Transition-final begins h = cc
Transition-final unhandled h = cc
Transition-final withdrawn h = cc
Transition-final succeeds h = cc
Transition-final fails h = cc
Transition-final aborts h = cc

Moves-Keeps : {job job' : JobRecord} → Moves job job' → Keeps job job'
Moves-Keeps m = record {
  id = m.id;
  wallet = m.wallet;
  collection = m.collection;
  parent = m.parent;
  key = m.key;
  final = λ h. (Transition-final m.status h, m.finished.2 h);
}

-- A job of the table before a change is in the table after it.
abbrev pub Survives : Dict String JobRecord → String → JobRecord → Type 0
Survives jobs id job = (job' : JobRecord) × (Dict.get id jobs ≡ some job') × Keeps job job'

moved-Survives :
    (jobs : Dict String JobRecord) (i id : String) (old new job : JobRecord)
    → Dict.get i jobs ≡ some old
    → Moves old new
    → Dict.get id jobs ≡ some job
    → Survives (Dict.set i new jobs) id job
moved-Survives jobs i id old new job there m h = elim (Bool-cases (i == id)) [
  | inr other ↦ (job, rw (get-set id i new jobs, other) h, Keeps-refl job)
  | inl same ↦
      let e : i ≡ id = (==_iff i id).0 same in
      let o : old ≡ job = cc in
      (new, rw (get-set id i new jobs, same), subst (λ x. Keeps x new) o (Moves-Keeps m))
]

set_new-Survives :
    (jobs : Dict String JobRecord) (uuid id : String) (new job : JobRecord)
    → Admitted jobs uuid new
    → Dict.get id jobs ≡ some job
    → Survives (Dict.set uuid new jobs) id job
set_new-Survives jobs uuid id new job a h = elim (Bool-cases (uuid == id)) [
  | inr other ↦ (job, rw (get-set id uuid new jobs, other) h, Keeps-refl job)
  | inl same ↦
      absurd
        (ground (arith, a.fresh, ==_iff uuid id, ap (λ k. Dict.get k jobs) {x = uuid} {y = id}))
]

pub Change-Survives :
    {jobs jobs' : Dict String JobRecord} (id : String) (job : JobRecord)
    → Change jobs jobs'
    → Dict.get id jobs ≡ some job
    → Survives jobs' id job
Change-Survives id job kept h = (job, h, Keeps-refl job)
Change-Survives {jobs} id job (moved i old new there m) h =
    moved-Survives jobs i id old new job there m h
Change-Survives {jobs} id job (admitted uuid new a) h = set_new-Survives jobs uuid id new job a h

Reach-InFlight :
    {schemas : String → Option (String → Bool)} {q q' : JobQueue}
    → InFlight q
    → Reach schemas q q'
    → InFlight q'
Reach-InFlight h here = h
Reach-InFlight h (next r s) = Step-InFlight s (Reach-InFlight h r)

Reach-Survives :
    {schemas : String → Option (String → Bool)} {q q' : JobQueue} (id : String) (job : JobRecord)
    → InFlight q
    → Reach schemas q q'
    → Dict.get id q.jobs ≡ some job
    → Survives q'.jobs id job
Reach-Survives id job f here h = (job, h, Keeps-refl job)
Reach-Survives id job f (next r s) h =
    let (mid, there, k) = Reach-Survives id job f r h in
    let (last, found, l) = Change-Survives id mid (Step-Change s (Reach-InFlight f r)) there in
    (last, found, Keeps-trans k l)

-- From a reachable state on, whatever happens, a job stays in the table, with its id, wallet,
-- collection, parent and key; and a job that has ended keeps its status and the time of its end for
-- ever.
pub job_survives :
    {schemas : String → Option (String → Bool)} {q q' : JobQueue} (id : String) (job : JobRecord)
    → Reachable schemas q
    → Reach schemas q q'
    → Dict.get id q.jobs ≡ some job
    → (job' : JobRecord) × (Dict.get id q'.jobs ≡ some job') × Keeps job job'
job_survives id job reached r h = Reach-Survives id job (Reachable-InFlight reached) r h

-- The end of a job is stamped.
abbrev IsStamped : JobRecord → Type 0
IsStamped job = is_active job.status ≡ not (is_some job.finished_at)

abbrev AllStamped : Dict String JobRecord → Type 0
AllStamped jobs = (id : String) (job : JobRecord) → Dict.get id jobs ≡ some job → IsStamped job

Moves-IsStamped : (job job' : JobRecord) → Moves job job' → IsStamped job → IsStamped job'
Moves-IsStamped job job' m h = ground (arith, m.finished, Transition-active m.status)

set-AllStamped :
    (jobs : Dict String JobRecord) (i : String) (new : JobRecord)
    → IsStamped new
    → AllStamped jobs
    → AllStamped (Dict.set i new jobs)
set-AllStamped jobs i new stamped h id job there = elim (Bool-cases (i == id)) [
  | inr other ↦ h id job (rw (get-set id i new jobs, other) at there)
  | inl same ↦
      let e : new ≡ job = cc (rw (get-set id i new jobs, same) at there) in
      subst IsStamped e stamped
]

Change-AllStamped :
    {jobs jobs' : Dict String JobRecord} → Change jobs jobs' → AllStamped jobs → AllStamped jobs'
Change-AllStamped kept h = h
Change-AllStamped {jobs} (moved id job job' there m) h =
    set-AllStamped jobs id job' (Moves-IsStamped job job' m (h id job there)) h
Change-AllStamped {jobs} (admitted uuid job a) h =
    set-AllStamped jobs uuid job (rw (a.waits, a.unfinished)) h

-- In every reachable state, a job has a time of its end exactly when its status is final.
pub Reachable-AllStamped :
    {schemas : String → Option (String → Bool)} {q : JobQueue}
    → Reachable schemas q
    → (id : String) (job : JobRecord) → Dict.get id q.jobs ≡ some job
    → is_active job.status ≡ not (is_some job.finished_at)
Reachable-AllStamped here id job h = unfold Dict.get in cc
Reachable-AllStamped (next r s) id job h =
    Change-AllStamped (Step-Change s (Reachable-InFlight r)) (Reachable-AllStamped r) id job h
