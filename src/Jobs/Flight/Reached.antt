-- ===== src/Jobs/Flight/Reached.antt =====
-- The invariant of the handlers in flight holds in every state that the queue reaches.
use wtfoc.Prelude.{String, Bool, Option, refl, text_has_eq, number_has_eq, arith}
use wtfoc.Prelude.Dict
use wtfoc.Prelude.Dict.{Dict, get-set, get-delete, has-set, has-delete}
use wtfoc.Jobs.{JobQueue, empty_queue}
use wtfoc.Jobs.Operations.{start, register, report_progress, settle}
use wtfoc.Jobs.Queries.{cancel, owned, subscribe, unsubscribe, unsubscribe_bucket}
use wtfoc.Jobs.Steps.{
  Step, starts, stops, registers, enqueues, dispatches, reports, settles, cancels, subscribes,
  unsubscribes, here, next, Reachable,
}
use wtfoc.Jobs.Flight.{InFlight, InFlight-cong}
use wtfoc.Jobs.Flight.Methods.{
  stop-InFlight, enqueue-InFlight, dispatch-InFlight, report_found-InFlight, settle_found-InFlight,
  cancel_found-InFlight,
}
use wtfoc.Jobs.Queries.{owned-eq-some}

pub Step-InFlight :
    {schemas : String → Option (String → Bool)} {q q' : JobQueue}
    → Step schemas q q'
    → InFlight q
    → InFlight q'
Step-InFlight (starts q) h = unfold start in InFlight-cong refl refl refl h
Step-InFlight (stops q) h = stop-InFlight q h
Step-InFlight (registers type q) h = unfold register in InFlight-cong refl refl refl h
Step-InFlight {schemas} (enqueues now uuid q input named fresh) h =
    enqueue-InFlight schemas now uuid q input fresh h
Step-InFlight (dispatches now id payload rest q head) h =
    dispatch-InFlight now id (record q { microtasks = rest }) (InFlight-cong refl refl refl h)
Step-InFlight (reports now id update q) h =
    unfold report_progress in report_found-InFlight now id update q (Dict.get id q.jobs) refl h
Step-InFlight (settles now id how q) h =
    unfold settle in
    settle_found-InFlight now id how q (Dict.get id q.signals) (Dict.get id q.jobs) h
Step-InFlight (cancels now id wallet q) h =
    unfold cancel in
    cancel_found-InFlight now id q (owned (Dict.get id q.jobs) wallet)
      (λ job e. (owned-eq-some (Dict.get id q.jobs) wallet job e).0) h
Step-InFlight (subscribes id wallet listener q) h =
    InFlight-cong {q = q} (unfold subscribe in ground arith) (unfold subscribe in ground arith)
      (unfold subscribe in ground arith) h
Step-InFlight (unsubscribes id listener q) h =
    InFlight-cong {q = q} (unfold unsubscribe unsubscribe_bucket in ground arith)
      (unfold unsubscribe unsubscribe_bucket in ground arith)
      (unfold unsubscribe unsubscribe_bucket in ground arith) h

InFlight-empty_queue : InFlight empty_queue
InFlight-empty_queue = record {
  is_map = refl;
  runs = λ id f. unfold Dict.get in (unfold Dict.get in cc);
  flies = λ id f. unfold Dict.get in cc;
  registered = λ id f. cc;
}

-- However the calls, the microtasks and the handlers interleave, a handler is in flight exactly for
-- the jobs whose status is `running`, and every registered abort controller is that of a handler in
-- flight.
pub Reachable-InFlight :
    {schemas : String → Option (String → Bool)} {q : JobQueue} → Reachable schemas q → InFlight q
Reachable-InFlight here = InFlight-empty_queue
Reachable-InFlight (next r s) = Step-InFlight s (Reachable-InFlight r)
