-- ===== src/Jobs/Wallets/Apart.antt =====
-- apps/web/server/jobs/in-memory.ts: what the calls of one wallet change for another.
use wtfoc.Prelude.{
  ℕ, String, Bool, false, Option, none, some, ◌∷◌, [], ◌≡◌, ◌≢◌, refl, sym, ◌∙◌, ap, text_has_eq,
  arith, ◌==◌, ==-false, inl, inr, Bool-cases,
}
use wtfoc.Prelude.Dict
use wtfoc.Prelude.Dict.{Dict}
use wtfoc.Prelude.Dict.Values.{IsMap}
use wtfoc.Jobs.{JobRecord, EnqueueJobInput, JobQueue}
use wtfoc.Jobs.Operations.{EnqueueOutcome, enqueue, enqueue_admitted, admission, new_job, owned_by}
use wtfoc.Jobs.Queries.{owned, get, ListFilter, list, list_children, cancel, subscribe}
use wtfoc.Jobs.Steps.{Step, enqueues, cancels, subscribes, Reachable, next}
use wtfoc.Jobs.Flight.Reached.{Reachable-InFlight}
use wtfoc.Jobs.Changes.Enqueued.{create-jobs}
use wtfoc.Jobs.Wallets.{own_jobs, only, cancel_found-answer, only-SameView, own_jobs-cancel}

-- A call that a wallet makes of the queue. An enqueue that a handler makes is one of its job's wallet.
pub data CallBy (schemas : String → Option (String → Bool)) (wallet : String)
    : JobQueue → JobQueue → Type 0 where
  enqueued :
      (now : ℕ) (uuid : String) (q : JobQueue) (input : EnqueueJobInput)
      → uuid ≢ ""
      → Dict.has uuid q.jobs ≡ false
      → input.wallet_address ≡ wallet
      → CallBy schemas wallet q (enqueue schemas now uuid q input).0
  cancelled_by :
      (now : ℕ) (id : String) (q : JobQueue) → CallBy schemas wallet q (cancel now id wallet q).0
  subscribed :
      (id : String) (listener : ℕ) (q : JobQueue)
      → CallBy schemas wallet q (subscribe id wallet listener q)

-- The methods answer a wallet in `r` what they answer it in `q`.
pub record SameAnswers (wallet : String) (q r : JobQueue) : Type 0 where
  pub gets : (id : String) → get id wallet r ≡ get id wallet q
  pub lists : (f : ListFilter) → list wallet f r ≡ list wallet f q
  pub children : (parent : String) → list_children parent wallet r ≡ list_children parent wallet q
  pub cancels : (now : ℕ) (id : String) → (cancel now id wallet r).1 ≡ (cancel now id wallet q).1

-- The answers are read off the table.
same_jobs-SameAnswers :
    (wallet : String) (q r : JobQueue) → r.jobs ≡ q.jobs → SameAnswers wallet q r
unfolding get list list_children cancel
same_jobs-SameAnswers wallet q r same = record {
  gets = λ id. rw same refl;
  lists = λ f. rw same refl;
  children = λ parent. rw same refl;
  cancels = λ now id. rw same (cancel_found-answer now id _ q (owned (Dict.get id q.jobs) wallet));
}

-- Queues with the same jobs of a wallet answer it the same.
own_jobs-SameAnswers :
    (wallet : String) (q r : JobQueue)
    → IsMap q.jobs
    → IsMap r.jobs
    → own_jobs wallet r.jobs ≡ own_jobs wallet q.jobs
    → SameAnswers wallet q r
own_jobs-SameAnswers wallet q r unique_q unique_r same =
    let before = only-SameView wallet q unique_q in
    let after = only-SameView wallet r unique_r in
    let m = same_jobs-SameAnswers wallet (only wallet q) (only wallet r) same in
    record {
      gets = λ id. sym (after.gets id) ∙ m.gets id ∙ before.gets id;
      lists = λ f. sym (after.lists f) ∙ m.lists f ∙ before.lists f;
      children = λ parent. sym (after.children parent) ∙ m.children parent ∙ before.children parent;
      cancels = λ now id. sym (after.cancels now id) ∙ m.cancels now id ∙ before.cancels now id;
    }

own_jobs-set_new :
    (uuid other : String) (job : JobRecord) (jobs : Dict String JobRecord)
    → Dict.has uuid jobs ≡ false
    → (job.wallet_address == other) ≡ false
    → own_jobs other (Dict.set uuid job jobs) ≡ own_jobs other jobs
unfolding Dict.get Dict.set
own_jobs-set_new uuid other job [] fresh foreign = ground (arith, foreign)
own_jobs-set_new uuid other job ((i, x) ∷ jobs) fresh foreign =
    ground (arith, own_jobs-set_new uuid other job jobs)

enqueue_admitted-own_jobs :
    (now : ℕ) (uuid other : String) (q : JobQueue) (input : EnqueueJobInput)
    (o : Option EnqueueOutcome)
    → Dict.has uuid q.jobs ≡ false
    → (input.wallet_address == other) ≡ false
    → own_jobs other (enqueue_admitted now uuid q input o).0.jobs ≡ own_jobs other q.jobs
unfolding enqueue_admitted
enqueue_admitted-own_jobs now uuid other q input (some outcome) fresh foreign = refl
enqueue_admitted-own_jobs now uuid other q input none fresh foreign =
    ap (own_jobs other) (create-jobs now uuid q input)
    ∙ own_jobs-set_new uuid other (new_job now uuid input) q.jobs fresh foreign

CallBy-own_jobs :
    {schemas : String → Option (String → Bool)} {wallet : String} {q r : JobQueue} (other : String)
    → CallBy schemas wallet q r
    → wallet ≢ other
    → own_jobs other r.jobs ≡ own_jobs other q.jobs
unfolding enqueue subscribe
CallBy-own_jobs {schemas} {wallet} other (enqueued now uuid q input named fresh own) ne =
    enqueue_admitted-own_jobs now uuid other q input (admission schemas q input) fresh
      (rw own (==-false wallet other ne))
CallBy-own_jobs {wallet = wallet} other (cancelled_by now id q) ne =
    own_jobs-cancel now id wallet other q ne
CallBy-own_jobs {wallet = wallet} other (subscribed id listener q) ne =
    elim (Bool-cases (owned_by (Dict.get id q.jobs) wallet)) [
      | inl own ↦ rw own refl
      | inr foreign ↦ rw foreign refl
    ]

CallBy-Step :
    {schemas : String → Option (String → Bool)} {wallet : String} {q r : JobQueue}
    → CallBy schemas wallet q r
    → Step schemas q r
CallBy-Step (enqueued now uuid q input named fresh own) = enqueues now uuid q input named fresh
CallBy-Step {wallet = wallet} (cancelled_by now id q) = cancels now id wallet q
CallBy-Step {wallet = wallet} (subscribed id listener q) = subscribes id wallet listener q

-- In a reachable state, no `cancel`, no `subscribe` and no `enqueue` with a fresh `randomUUID` that one
-- wallet calls, whatever ids it names, changes what `get`, `list` with any filter, `listChildren` and
-- the Boolean of `cancel` answer to another wallet.
pub CallBy-SameAnswers :
    {schemas : String → Option (String → Bool)} {q r : JobQueue} (wallet other : String)
    → Reachable schemas q
    → CallBy schemas wallet q r
    → wallet ≢ other
    → SameAnswers other q r
CallBy-SameAnswers {q = q} {r = r} wallet other reach call ne =
    own_jobs-SameAnswers other q r (Reachable-InFlight reach).is_map
      (Reachable-InFlight (next reach (CallBy-Step call))).is_map (CallBy-own_jobs other call ne)
