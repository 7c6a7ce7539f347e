-- ===== src/Jobs/Queries.antt =====
-- `get`, `list`, `listChildren`, `cancel` and `subscribe` of `InMemoryJobQueue`
-- (apps/web/server/jobs/in-memory.ts): what a wallet may see and do.
use wtfoc.Prelude.{
  ℕ, String, Bool, true, false, not, ◌&&◌, Option, none, some, List, [], ◌==◌, map, if◌then◌else◌,
  includes, add, filter, or_else, text_has_eq, number_has_eq, ltb, any, ◌≡◌, arith, ==_iff,
}
use wtfoc.Prelude.Dict
use wtfoc.Prelude.Sorting.{sort}
use wtfoc.Schema.{truthy}
use wtfoc.Jobs.{
  JobStatus, queued, running, succeeded, failed, cancelled, JobRecord, JobQueue, is_active,
  is_queued,
}
use wtfoc.Jobs.Operations.{write, emit, is_some_eq, owned_by}

abbrev pub owned : Option JobRecord → String → Option JobRecord
owned none wallet = none
owned (some job) wallet = if job.wallet_address == wallet then some job else none

unfoldable pub get : String → String → JobQueue → Option JobRecord
get id wallet q = owned (Dict.get id q.jobs) wallet

-- `JobSummary`: the record without `message` and `errorMessage`.
abbrev pub summary : JobRecord → JobRecord
summary job = record job { message = none; error_message = none }

abbrev pub same_status : JobStatus → JobStatus → Bool
same_status queued queued = true
same_status running running = true
same_status succeeded succeeded = true
same_status failed failed = true
same_status cancelled cancelled = true
same_status _ _ = false

-- `filter?: { collectionId?, status? }`; one status is the list of it.
pub record ListFilter : Type 0 where
  pub collection_id : Option String
  pub status : Option (List JobStatus)

abbrev status_wanted : Option (List JobStatus) → JobStatus → Bool
status_wanted none s = true
status_wanted (some want) s = any (same_status s) want

abbrev pub is_listed : String → ListFilter → JobRecord → Bool
is_listed wallet f job =
    job.wallet_address == wallet
    && (if truthy f.collection_id
        then is_some_eq job.collection_id (or_else f.collection_id "")
        else true)
    && status_wanted f.status job.status

abbrev pub newer : JobRecord → JobRecord → Bool
newer a b = ltb b.created_at a.created_at

abbrev pub older : JobRecord → JobRecord → Bool
older a b = ltb a.created_at b.created_at

unfoldable pub list : String → ListFilter → JobQueue → List JobRecord
list wallet f q = sort newer (map summary (filter (is_listed wallet f) (Dict.values q.jobs)))

abbrev pub is_child : String → String → JobRecord → Bool
is_child parent wallet job = is_some_eq job.parent_job_id parent && job.wallet_address == wallet

unfoldable pub list_children : String → String → JobQueue → List JobRecord
list_children parent wallet q =
    if owned_by (Dict.get parent q.jobs) wallet
    then sort older (map summary (filter (is_child parent wallet) (Dict.values q.jobs)))
    else []

-- A cancel of a job that is queued finalizes it; one that runs only has its signal aborted.
abbrev pub cancel_requested : ℕ → JobRecord → JobRecord
cancel_requested now job =
    let job' = record job { cancel_requested_at = some now; updated_at = now } in
    if is_queued job.status
    then record job' { status = cancelled; finished_at = some now }
    else job'

unfoldable pub cancel_job : ℕ → String → JobQueue → JobRecord → JobQueue
cancel_job now id q job = emit id (record (write q id (cancel_requested now job)) {
  signals = if includes q.abort_controllers id then Dict.set id true q.signals else q.signals;
})

unfoldable pub cancel_found : ℕ → String → JobQueue → Option JobRecord → JobQueue × Bool
cancel_found now id q none = (q, false)
cancel_found now id q (some job) =
    if is_active job.status then (cancel_job now id q job, true) else (q, false)

unfoldable pub cancel : ℕ → String → String → JobQueue → JobQueue × Bool
unfolding cancel_found
cancel now id wallet q = cancel_found now id q (owned (Dict.get id q.jobs) wallet)

-- A miss registers nothing, and the caller gets an `unsubscribe` that does nothing.
unfoldable pub subscribe : String → String → ℕ → JobQueue → JobQueue
subscribe id wallet listener q =
    if owned_by (Dict.get id q.jobs) wallet
    then record q {
      subscribers =
          Dict.set id (add (or_else (Dict.get id q.subscribers) []) listener) q.subscribers;
    }
    else q

unfoldable pub unsubscribe_bucket : String → ℕ → JobQueue → Option (List ℕ) → JobQueue
unsubscribe_bucket id listener q none = q
unsubscribe_bucket id listener q (some bucket) =
    let left = filter (λ l. not (l == listener)) bucket in
    record q {
      subscribers = elim left [
        | [] ↦ Dict.delete id q.subscribers
        | some_left ↦ Dict.set id some_left q.subscribers
      ];
    }

-- The function that `subscribe` returns.
unfoldable pub unsubscribe : String → ℕ → JobQueue → JobQueue
unfolding unsubscribe_bucket
unsubscribe id listener q = unsubscribe_bucket id listener q (Dict.get id q.subscribers)

pub owned-eq-some :
    (found : Option JobRecord) (wallet : String) (job : JobRecord)
    → owned found wallet ≡ some job
    → (found ≡ some job) × (job.wallet_address ≡ wallet)
owned-eq-some none wallet job h = cc
owned-eq-some (some j) wallet job h = ground (arith, ==_iff j.wallet_address wallet)
