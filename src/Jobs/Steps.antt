-- ===== src/Jobs/Steps.antt =====
-- The interleavings of the queue's event loop: every call of a method, every microtask, and every
-- handler that reports or ends, one after another in any order.
use wtfoc.Prelude.{ℕ, String, Bool, false, Option, List, ◌∷◌, ◌≡◌, ◌≢◌, text_has_eq}
use wtfoc.Prelude.Dict
use wtfoc.Jobs.{JobQueue, EnqueueJobInput, empty_queue}
use wtfoc.Jobs.Operations.{
  start, stop, register, enqueue, dispatch, ProgressUpdate, report_progress, Settled, settle,
}
use wtfoc.Jobs.Queries.{cancel, subscribe, unsubscribe}

module _ (schemas : String → Option (String → Bool)) where
  -- A `randomUUID` is a text that is not empty and that no job has for its id yet. The listeners' calls are kept in `emitted`.
  pub data Step : JobQueue → JobQueue → Type 0 where
    starts : (q : JobQueue) → Step q (start q)
    stops : (q : JobQueue) → Step q (stop q)
    registers : (type : String) (q : JobQueue) → Step q (register type q)
    enqueues :
        (now : ℕ) (uuid : String) (q : JobQueue) (input : EnqueueJobInput)
        → uuid ≢ ""
        → Dict.has uuid q.jobs ≡ false
        → Step q (enqueue schemas now uuid q input).0
    dispatches :
        (now : ℕ) (id payload : String) (rest : List (String × String)) (q : JobQueue)
        → q.microtasks ≡ (id, payload) ∷ rest
        → Step q (dispatch now id (record q { microtasks = rest }))
    reports :
        (now : ℕ) (id : String) (update : ProgressUpdate) (q : JobQueue)
        → Step q (report_progress now id update q)
    settles : (now : ℕ) (id : String) (how : Settled) (q : JobQueue) → Step q (settle now id how q)
    cancels : (now : ℕ) (id wallet : String) (q : JobQueue) → Step q (cancel now id wallet q).0
    subscribes :
        (id wallet : String) (listener : ℕ) (q : JobQueue) → Step q (subscribe id wallet listener q)
    unsubscribes : (id : String) (listener : ℕ) (q : JobQueue) → Step q (unsubscribe id listener q)

  pub data Reach (s : JobQueue) : JobQueue → Type 0 where
    here : Reach s s
    next : {q q' : JobQueue} → Reach s q → Step q q' → Reach s q'

  -- The states of a queue that the process has made.
  abbrev pub Reachable : JobQueue → Type 0
  Reachable q = Reach empty_queue q
