-- ===== src/Jobs/Trace.antt =====
-- The life of the queue's tables: any sequence of calls of JobRunner by any workers and clients. Each
-- call is one transaction, so interleaved processes give a sequence of calls.
pub mod Frame
pub mod Settled
pub mod Final
pub mod Recovers
pub mod Ordered
pub mod Complete
use truyenaudio_studio.Prelude.{ℕ, Option, String, List, [], ◌∷◌}
use truyenaudio_studio.Jobs.Schema.{JobKind, Db, empty_db}
use truyenaudio_studio.Jobs.Tx.{Datetime}
use truyenaudio_studio.Jobs.Leases.{ErrorRecord}
use truyenaudio_studio.Jobs.Runner.{
  enqueue, claim, heartbeat, request_cancel, retry_failed, acknowledge_cancel, complete, defer,
  mark_provider_sent,
}
use truyenaudio_studio.Jobs.Failure.{fail_job}
use truyenaudio_studio.Jobs.Recovery.{recover_expired}
use truyenaudio_studio.Jobs.Valid.{IsValid}
use truyenaudio_studio.Jobs.Valid.Methods.{
  complete-IsValid, acknowledge_cancel-IsValid, fail-IsValid,
}
use truyenaudio_studio.Jobs.Valid.Requests.{
  enqueue-IsValid, claim-IsValid_lem, heartbeat-IsValid, request_cancel-IsValid,
  retry_failed-IsValid, defer-IsValid, mark_provider_sent-IsValid,
}
use truyenaudio_studio.Jobs.Valid.Recovered.{recover_expired-IsValid}

-- A call with its arguments; the fresh identifiers and clock readings stand first or last.
pub data Call : Type 0 where
  enqueue_call : ℕ → JobKind → ℕ → Option ℕ → ℕ → ℕ → Option String → ℕ → Call
  claim_call : ℕ → ℕ → Datetime → Call
  heartbeat_call : ℕ → ℕ → ℕ → Datetime → Call
  request_cancel_call : ℕ → Datetime → Call
  retry_failed_call : ℕ → Datetime → Call
  acknowledge_cancel_call : ℕ → ℕ → ℕ → Datetime → Call
  complete_call : ℕ → Option ℕ → ℕ → ℕ → Datetime → Call
  fail_call : ℕ → ErrorRecord → ℕ → ℕ → Datetime → Call
  defer_call : ℕ → Datetime → ℕ → Call
  mark_provider_sent_call : ℕ → ℕ → ℕ → ℕ → ℕ → Call
  recover_expired_call : Datetime → Call

-- The tables after a call, whether it returned or raised.
unfoldable pub perform : Call → Db → Db
perform (enqueue_call i kind p c key priority plan now) db =
    (enqueue i kind p c key priority plan now db).1
perform (claim_call w a at) db = (claim w a at db).1
perform (heartbeat_call j w a at) db = (heartbeat j w a at db).1
perform (request_cancel_call j at) db = (request_cancel j at db).1
perform (retry_failed_call j at) db = (retry_failed j at db).1
perform (acknowledge_cancel_call j w a at) db = (acknowledge_cancel j w a at db).1
perform (complete_call j r w a at) db = (complete j r w a at db).1
perform (fail_call j e w a at) db = (fail_job j e w a at db).1
perform (defer_call j at clock) db = (defer j at clock db).1
perform (mark_provider_sent_call j w a r clock) db = (mark_provider_sent j w a r clock db).1
perform (recover_expired_call at) db = (recover_expired at db).1

unfoldable pub perform_all : List Call → Db → Db
perform_all [] db = db
perform_all (c ∷ cs) db = perform_all cs (perform c db)

pub perform-IsValid : (c : Call) (db : Db) → IsValid db → IsValid (perform c db)
unfolding perform
perform-IsValid (enqueue_call i kind p c key priority plan now) db v =
    enqueue-IsValid i kind p c key priority plan now db v
perform-IsValid (claim_call w a at) db v = claim-IsValid_lem db v w a at
perform-IsValid (heartbeat_call j w a at) db v = heartbeat-IsValid db v j w a at
perform-IsValid (request_cancel_call j at) db v = request_cancel-IsValid db v j at
perform-IsValid (retry_failed_call j at) db v = retry_failed-IsValid db v j at
perform-IsValid (acknowledge_cancel_call j w a at) db v = acknowledge_cancel-IsValid j w a db v at
perform-IsValid (complete_call j r w a at) db v = complete-IsValid j w a db v r at
perform-IsValid (fail_call j e w a at) db v = fail-IsValid j w a db v e at
perform-IsValid (defer_call j at clock) db v = defer-IsValid db v j at clock
perform-IsValid (mark_provider_sent_call j w a r clock) db v =
    mark_provider_sent-IsValid db v j w a r clock
perform-IsValid (recover_expired_call at) db v = recover_expired-IsValid at db v

run_from-IsValid : (cs : List Call) (db : Db) → IsValid db → IsValid (perform_all cs db)
unfolding perform_all
run_from-IsValid [] db v = v
run_from-IsValid (c ∷ cs) db v = run_from-IsValid cs (perform c db) (perform-IsValid c db v)

empty-IsValid : IsValid empty_db
empty-IsValid = record {
  leases = tt;
  jobs_distinct = tt;
  attempts_distinct = tt;
  attempts_known = tt;
}

-- After any sequence of calls on empty tables, whether they returned or raised: a held job (RUNNING
-- or CANCEL_REQUESTED) has an owner, a lease and exactly one open attempt, every other job has
-- none of these, no two jobs share an identifier or an idempotency key, no two attempts share an
-- identifier or a number within a job, and every attempt belongs to a job of the table.
pub perform_all-IsValid : (cs : List Call) → IsValid (perform_all cs empty_db)
perform_all-IsValid cs = run_from-IsValid cs empty_db empty-IsValid
