-- ===== src/Jobs/Flight/Writes.antt =====
-- Single writes to the queue that keep the invariant of the handlers in flight.
use wtfoc.Prelude.{
  String, Bool, true, not, some, ◌==◌, ◌≡◌, ◌≢◌, ap, if◌then◌else◌, includes, add, filter,
  text_has_eq, number_has_eq, arith, includes-add, includes-filter, ==_iff,
}
use wtfoc.Prelude.Dict
use wtfoc.Prelude.Dict.{Dict, get-set, get-delete, has-set, has-delete}
use wtfoc.Prelude.Dict.Values.{set-IsMap}
use wtfoc.Jobs.{running, JobRecord, JobQueue}
use wtfoc.Jobs.Operations.{write}
use wtfoc.Jobs.Flight.{status_of, InFlight}

pub status_of-set :
    (id j : String) (job : JobRecord) (jobs : Dict String JobRecord)
    → status_of (Dict.get j (Dict.set id job jobs))
      ≡ (if id == j then some job.status else status_of (Dict.get j jobs))
status_of-set id j job jobs = ground (arith, get-set j id job jobs)

-- A write that keeps the status of the job.
pub write-InFlight :
    (id : String) (q : JobQueue) (job job' : JobRecord)
    → Dict.get id q.jobs ≡ some job
    → job'.status ≡ job.status
    → InFlight q
    → InFlight (write q id job')
write-InFlight id q job job' there same h = record {
  is_map = set-IsMap id job' q.jobs h.is_map;
  runs = λ j f. ground (arith, h.runs j, status_of-set id j job' q.jobs, ==_iff id j, kept j);
  flies = λ j f. ground (arith, h.flies j, status_of-set id j job' q.jobs, ==_iff id j, kept j);
  registered = h.registered;
}
  where
    kept : (j : String) → id ≡ j → status_of (Dict.get j q.jobs) ≡ some job'.status
    kept j e = rw (← e, there, same)

-- A job enters the table or leaves a status that no handler in flight has.
pub idle-InFlight :
    (id : String) (q : JobQueue) (job' : JobRecord)
    → status_of (Dict.get id q.jobs) ≢ some running
    → job'.status ≢ running
    → InFlight q
    → InFlight (write q id job')
idle-InFlight id q job' idle stays h = record {
  is_map = set-IsMap id job' q.jobs h.is_map;
  runs = λ j f. ground (arith, h.runs j, status_of-set id j job' q.jobs, ==_iff id j, kept j);
  flies = λ j f. ground (arith, h.flies j, status_of-set id j job' q.jobs, ==_iff id j);
  registered = h.registered;
}
  where
    kept : (j : String) → id ≡ j → status_of (Dict.get j q.jobs) ≢ some running
    kept j e = rw (← e) idle

-- The signals change, but not their keys.
pub signals-InFlight :
    (q : JobQueue) (signals : Dict String Bool)
    → ((j : String) → Dict.has j signals ≡ Dict.has j q.signals)
    → InFlight q
    → InFlight (record q { signals = signals })
signals-InFlight q signals same h = record {
  is_map = h.is_map;
  runs = λ j f. h.runs j (ground (arith, same j));
  flies = λ j f. ground (arith, h.flies j, same j);
  registered = λ j f. ground (arith, h.registered j, same j);
}

-- A job that was not running starts, with its handler.
pub begin-InFlight :
    (id : String) (q : JobQueue) (job' : JobRecord) (aborted : Bool)
    → job'.status ≡ running
    → InFlight q
    → InFlight (record (write q id job') {
      abort_controllers = add q.abort_controllers id;
      signals = Dict.set id aborted q.signals;
    })
begin-InFlight id q job' aborted runs h = record {
  is_map = set-IsMap id job' q.jobs h.is_map;
  runs = λ j f.
      ground (arith, h.runs j, status_of-set id j job' q.jobs, has-set j id aborted q.signals);
  flies = λ j f.
      ground (arith, h.flies j, status_of-set id j job' q.jobs, has-set j id aborted q.signals);
  registered = λ j f. ground (
    arith,
    h.registered j,
    has-set j id aborted q.signals,
    includes-add q.abort_controllers id j,
  );
}

-- A handler has ended, and its job is in a final state.
pub end-InFlight :
    (id : String) (q : JobQueue) (job' : JobRecord)
    → job'.status ≢ running
    → InFlight q
    → InFlight (record (write q id job') {
      abort_controllers = filter (λ c. not (c == id)) q.abort_controllers;
      signals = Dict.delete id q.signals;
    })
end-InFlight id q job' ended h = record {
  is_map = set-IsMap id job' q.jobs h.is_map;
  runs = λ j f. ground (arith, h.runs j, status_of-set id j job' q.jobs, has-delete j id q.signals);
  flies =
      λ j f. ground (arith, h.flies j, status_of-set id j job' q.jobs, has-delete j id q.signals);
  registered = λ j f. ground (
    arith,
    h.registered j,
    has-delete j id q.signals,
    includes-filter (λ c. not (c == id)) q.abort_controllers j,
    ==_iff id j,
    ==_iff j id,
  );
}

pub abort_one-InFlight :
    (id : String) (q : JobQueue)
    → InFlight q
    → InFlight (record q {
      signals = if includes q.abort_controllers id then Dict.set id true q.signals else q.signals;
    })
abort_one-InFlight id q h =
    signals-InFlight q _
      (λ j. ground (
        arith,
        h.registered id,
        has-set j id true q.signals,
        ==_iff id j,
        ap (λ k. Dict.has k q.signals) {x = id} {y = j},
      ))
      h
