-- ===== src/Jobs/Wallets.antt =====
-- apps/web/server/jobs/in-memory.ts: what a wallet learns of the queue, and what it can do to the jobs
-- of another.
pub mod Apart
use wtfoc.Prelude.{
  ℕ, String, Bool, true, false, Option, none, some, [], ◌∷◌, ◌==◌, map, ◌≡◌, ◌≢◌, refl, ap,
  if◌then◌else◌, filter, includes, is_some, text_has_eq, arith, inl, inr, Bool-cases, ==_iff,
  ==-false,
}
use wtfoc.Prelude.Dict
use wtfoc.Prelude.Dict.{Dict}
use wtfoc.Prelude.Dict.Values.{IsMap}
use wtfoc.Prelude.Sorting.{sort}
use wtfoc.Jobs.{JobRecord, JobQueue, is_active}
use wtfoc.Jobs.Operations.{owned_by}
use wtfoc.Jobs.Flight.{emit-jobs}
use wtfoc.Jobs.Queries.{
  owned, owned-eq-some, get, summary, ListFilter, is_listed, newer, list, is_child, list_children,
  cancel, cancel_found, cancel_job, cancel_requested, subscribe,
}

-- The jobs of one wallet.
abbrev pub own_jobs : String → Dict String JobRecord → Dict String JobRecord
own_jobs wallet [] = []
own_jobs wallet ((id, job) ∷ jobs) =
    if job.wallet_address == wallet then (id, job) ∷ own_jobs wallet jobs else own_jobs wallet jobs

-- The queue without the jobs of other wallets.
abbrev pub only : String → JobQueue → JobQueue
only wallet q = record q { jobs = own_jobs wallet q.jobs }

filter-own_jobs :
    (wallet : String) (keep : JobRecord → Bool) (jobs : Dict String JobRecord)
    → ((job : JobRecord) → keep job ≡ true → (job.wallet_address == wallet) ≡ true)
    → filter keep (Dict.values (own_jobs wallet jobs)) ≡ filter keep (Dict.values jobs)
filter-own_jobs wallet keep [] own = refl
filter-own_jobs wallet keep ((id, job) ∷ jobs) own =
    ground (arith, filter-own_jobs wallet keep jobs own, own job)

missing_own :
    (id wallet : String) (jobs : Dict String JobRecord)
    → Dict.get id jobs ≡ none
    → Dict.get id (own_jobs wallet jobs) ≡ none
unfolding Dict.get
missing_own id wallet [] missing = refl
missing_own id wallet ((i, job) ∷ jobs) missing = ground (arith, missing_own id wallet jobs)

get-missing :
    (id : String) (jobs : Dict String JobRecord)
    → includes (Dict.keys jobs) id ≡ false
    → Dict.get id jobs ≡ none
unfolding Dict.get
get-missing id [] missing = refl
get-missing id ((i, job) ∷ jobs) missing = ground (arith, get-missing id jobs)

owned-own_jobs :
    (id wallet : String) (jobs : Dict String JobRecord)
    → IsMap jobs
    → owned (Dict.get id (own_jobs wallet jobs)) wallet ≡ owned (Dict.get id jobs) wallet
unfolding Dict.get
owned-own_jobs id wallet [] unique = refl
owned-own_jobs id wallet ((i, job) ∷ jobs) unique =
    let later = owned-own_jobs id wallet jobs (ground arith) in
    elim (Bool-cases (i == id)) [
      | inl here ↦
          let gone =
            missing_own id wallet jobs (get-missing id jobs (ground (arith, here, ==_iff i id))) in
          elim (Bool-cases (job.wallet_address == wallet)) [
            | inl own ↦ rw (own, here) (rw own refl)
            | inr foreign ↦ rw (foreign, here, gone) (rw foreign refl)
          ]
      | inr other ↦ elim (Bool-cases (job.wallet_address == wallet)) [
        | inl own ↦ rw (own, other) later
        | inr foreign ↦ rw (foreign, other) later
      ]
    ]

owned_by-eq :
    (found : Option JobRecord) (wallet : String)
    → owned_by found wallet ≡ is_some (owned found wallet)
owned_by-eq none wallet = refl
owned_by-eq (some job) wallet = ground arith

pub cancel_found-answer :
    (now : ℕ) (id : String) (q r : JobQueue) (found : Option JobRecord)
    → (cancel_found now id q found).1 ≡ (cancel_found now id r found).1
unfolding cancel_found
cancel_found-answer now id q r none = refl
cancel_found-answer now id q r (some job) = ground arith

-- A write to a job of another wallet.
own_jobs-set :
    (id wallet : String) (job job' : JobRecord) (jobs : Dict String JobRecord)
    → Dict.get id jobs ≡ some job
    → (job.wallet_address == wallet) ≡ false
    → (job'.wallet_address == wallet) ≡ false
    → own_jobs wallet (Dict.set id job' jobs) ≡ own_jobs wallet jobs
unfolding Dict.get Dict.set
own_jobs-set id wallet job job' [] there f f' = cc
own_jobs-set id wallet job job' ((i, x) ∷ jobs) there f f' =
    ground (arith, own_jobs-set id wallet job job' jobs)

cancel_requested-wallet :
    (now : ℕ) (job : JobRecord) → (cancel_requested now job).wallet_address ≡ job.wallet_address
cancel_requested-wallet now job = ground arith

cancel_found-own_jobs :
    (now : ℕ) (id wallet other : String) (q : JobQueue) (found : Option JobRecord)
    → wallet ≢ other
    → ((job : JobRecord)
        → found ≡ some job
        → (Dict.get id q.jobs ≡ some job) × (job.wallet_address ≡ wallet))
    → own_jobs other (cancel_found now id q found).0.jobs ≡ own_jobs other q.jobs
unfolding cancel_found cancel_job
cancel_found-own_jobs now id wallet other q none ne there = refl
cancel_found-own_jobs now id wallet other q (some job) ne there =
    let (at, own) = there job refl in
    let f : (job.wallet_address == other) ≡ false = rw own (==-false wallet other ne) in
    elim (Bool-cases (is_active job.status)) [
      | inl live ↦
          rw (live, emit-jobs)
            (own_jobs-set id other job (cancel_requested now job) q.jobs at f
              (rw (cancel_requested-wallet now job) f))
      | inr over ↦ rw over refl
    ]

list_children-own :
    (parent wallet : String) (q : JobQueue)
    → IsMap q.jobs
    → list_children parent wallet (only wallet q) ≡ list_children parent wallet q
unfolding list_children
list_children-own parent wallet q unique =
    rw
      (
        owned_by-eq (Dict.get parent (own_jobs wallet q.jobs)) wallet,
        owned-own_jobs parent wallet q.jobs unique,
        owned_by-eq (Dict.get parent q.jobs) wallet,
        filter-own_jobs wallet (is_child parent wallet) q.jobs (λ job h. ground arith),
      )
      refl

subscribe-own :
    (id wallet : String) (listener : ℕ) (q : JobQueue)
    → IsMap q.jobs
    → (subscribe id wallet listener (only wallet q)).subscribers
      ≡ (subscribe id wallet listener q).subscribers
unfolding subscribe
subscribe-own id wallet listener q unique = ground (
  arith,
  owned_by-eq (Dict.get id (own_jobs wallet q.jobs)) wallet,
  owned-own_jobs id wallet q.jobs unique,
  owned_by-eq (Dict.get id q.jobs) wallet,
)

-- What a wallet learns from `q`, it learns from `r`.
pub record SameView (wallet : String) (q r : JobQueue) : Type 0 where
  pub gets : (id : String) → get id wallet r ≡ get id wallet q
  pub lists : (f : ListFilter) → list wallet f r ≡ list wallet f q
  pub children : (parent : String) → list_children parent wallet r ≡ list_children parent wallet q
  pub cancels : (now : ℕ) (id : String) → (cancel now id wallet r).1 ≡ (cancel now id wallet q).1
  pub subscribes :
      (id : String) (listener : ℕ)
      → (subscribe id wallet listener r).subscribers ≡ (subscribe id wallet listener q).subscribers

-- A wallet's view of a queue, in whose table no id stands twice, is its view of the queue without the
-- jobs of the other wallets: `get`, `list` with any filter, `listChildren` and the answer of `cancel`
-- are the same, and `subscribe` leaves the same listeners registered.
pub only-SameView :
    (wallet : String) (q : JobQueue) → IsMap q.jobs → SameView wallet q (only wallet q)
unfolding get list cancel
only-SameView wallet q unique = record {
  gets = λ id. owned-own_jobs id wallet q.jobs unique;
  lists = λ f.
      ap (λ jobs. sort newer (map summary jobs))
        (filter-own_jobs wallet (is_listed wallet f) q.jobs (λ job h. ground arith));
  children = λ parent. list_children-own parent wallet q unique;
  cancels = λ now id.
      rw (owned-own_jobs id wallet q.jobs unique)
        (cancel_found-answer now id (only wallet q) q (owned (Dict.get id q.jobs) wallet));
  subscribes = λ id listener. subscribe-own id wallet listener q unique;
}

-- A `cancel` by a wallet, of whatever id, leaves the jobs of every other wallet as they were.
pub own_jobs-cancel :
    (now : ℕ) (id wallet other : String) (q : JobQueue)
    → wallet ≢ other
    → own_jobs other (cancel now id wallet q).0.jobs ≡ own_jobs other q.jobs
unfolding cancel
own_jobs-cancel now id wallet other q ne =
    cancel_found-own_jobs now id wallet other q (owned (Dict.get id q.jobs) wallet) ne
      (owned-eq-some (Dict.get id q.jobs) wallet)
