-- ===== src/Jobs/Scenario.antt =====
-- Small tables of the queue, for the examples.
use truyenaudio_studio.Prelude.{
  refl, true, false, none, some, List, [], ◌∷◌, count_where, select_where, update_where, find_where,
}
use truyenaudio_studio.Jobs.Schema.{Job, JobAttempt, Outcome, Db, translate, synthesize, succeeded}
use truyenaudio_studio.Jobs.Tx.{aware}
use truyenaudio_studio.Jobs.Rows.{
  find_job, current_attempt, order_rows, max_attempt_no, new_event, emit_job_event,
}
use truyenaudio_studio.Jobs.Leases.{ErrorRecord, to_terminal, close}
use truyenaudio_studio.Jobs.Runner.{
  new_job, new_attempt, to_running, enqueue, claim, complete, next_ready,
}
use truyenaudio_studio.Jobs.Valid.{IsValid}
use truyenaudio_studio.Jobs.Trace.{
  Call, enqueue_call, claim_call, complete_call, perform, perform-IsValid, perform_all,
  perform_all-IsValid,
}
use truyenaudio_studio.Jobs.Contract.Fencing.{HoldsLease}

-- Two jobs of a project are queued, and worker 5 claims the first with attempt 11.
abbrev pub work_calls : List Call
work_calls =
    enqueue_call 1 translate 7 none 42 100 none 1000
    ∷ enqueue_call 2 synthesize 7 (some 3) 43 100 none 1000
    ∷ claim_call 5 11 (aware 2000)
    ∷ []

abbrev pub first_job : Job
first_job = new_job 1 translate 7 none 42 100 1000

abbrev pub second_job : Job
second_job = new_job 2 synthesize 7 (some 3) 43 100 1000

abbrev pub running_job : Job
running_job = to_running 5 2000 first_job

abbrev pub first_attempt : JobAttempt
first_attempt = new_attempt 11 1 1 2000

abbrev pub queued_db : Db
queued_db = record { jobs = first_job ∷ second_job ∷ []; attempts = []; events = [] }

abbrev pub working_db : Db
working_db = record {
  jobs = running_job ∷ second_job ∷ [];
  attempts = first_attempt ∷ [];
  events = [];
}

pub queued_db-IsValid : IsValid queued_db
unfolding perform_all perform enqueue select_where count_where
queued_db-IsValid = perform_all-IsValid (
    enqueue_call 1 translate 7 none 42 100 none 1000
    ∷ enqueue_call 2 synthesize 7 (some 3) 43 100 none 1000
    ∷ [])

pub working_db-IsValid : IsValid working_db
unfolding perform_all perform enqueue claim next_ready order_rows select_where count_where
    update_where max_attempt_no
working_db-IsValid = perform_all-IsValid work_calls

unfoldable pub working_db-HoldsLease : HoldsLease working_db 1 5 11 3000
unfolding find_job current_attempt find_where
working_db-HoldsLease = record {
  row = running_job;
  attempt = first_attempt;
  row_found = refl;
  is_running_row = refl;
  owned = refl;
  live = refl;
  current = refl;
  same_attempt = refl;
}

-- The first job after it has succeeded.
abbrev pub done_db : Db
done_db = record {
  jobs = to_terminal succeeded 3000 (some 9) none none running_job ∷ second_job ∷ [];
  attempts = close 3000 Outcome.succeeded none none first_attempt ∷ [];
  events = new_event 1 3000 [] ∷ [];
}

pub done_db-IsValid : IsValid done_db
unfolding perform_all perform complete find_job current_attempt find_where count_where update_where
    emit_job_event
done_db-IsValid =
    perform-IsValid (complete_call 1 (some 9) 5 11 (aware 3000)) working_db working_db-IsValid

-- A timeout before the request was sent, and one after.
abbrev pub timeout_unsent : ErrorRecord
timeout_unsent = record {
  code = "HTTP_408";
  summary = "timeout";
  retryable = true;
  provider_request_sent = false;
  retry_after_seconds = none;
  redacted_detail = none;
}

abbrev pub timeout_sent : ErrorRecord
timeout_sent = record timeout_unsent { provider_request_sent = true }
