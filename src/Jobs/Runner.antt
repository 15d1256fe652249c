-- ===== src/Jobs/Runner.antt =====
-- The public methods of JobRunner (backend/app/modules/jobs/runner.py) up to `mark_provider_sent`,
-- without `fail` and `recover_expired`. `id_factory` and the clock read inside a method are
-- arguments, and a JobView shows the row, which is returned itself.
mod Enqueue
mod Claim
unfoldable pub use Enqueue.*
unfoldable pub use Claim.*
use truyenaudio_studio.Prelude.{
  ℕ, ◌+◌, String, Bool, true, Option, none, some, ◌&&◌, ◌||◌, not, leb, ◌==◌, if◌then◌else◌, opt_eq,
  count_where, select_where, List, [], ◌∷◌,
}
use truyenaudio_studio.Jobs.Schema.{
  Job, JobAttempt, JobKind, JobStatus, queued, running, cancel_requested, succeeded, canceled,
  Outcome, seconds, is_held, is_queued, is_failed,
}
use truyenaudio_studio.Jobs.Tx.{
  Tx, lease_lost, no_result_found, pure, gets, or_raise, begin, raise_unless, modify, Datetime,
  require_aware, ◌>>=◌, ◌>>◌,
}
use truyenaudio_studio.Jobs.Rows.{
  has_id, has_key, find_job, job_row, update_jobs, update_attempts, current_attempt, attempt_is,
  max_attempt_no, insert_attempt, insert_job_or_ignore, first_row, order_rows, emit_job_event,
  replace_job_event,
}
use truyenaudio_studio.Jobs.Leases.{
  is_open_attempt, has_expired, require_live_lease, require_cancel_lease, close_attempt_by_id,
  set_terminal_for_lease, set_terminal_for_cancel_lease,
}

-- status NOT IN ('SUCCEEDED', 'FAILED', 'CANCELED', 'BLOCKED_BUDGET', 'BILLING_UNKNOWN')
abbrev pub is_live : JobStatus → Bool
is_live s = is_queued s || is_held s

abbrev pub to_cancel : ℕ → Job → Job
to_cancel now j = record j {
  status = if is_queued j.status then canceled else cancel_requested;
  cancel_requested_at = some now;
  updated_at = now;
}

-- Publish the marker and return the row, if the statement before wrote exactly one row.
unfoldable pub publish : ℕ → ℕ → ℕ → Tx (Option Job)
unfolding job_row replace_job_event
publish n job_id now =
    if n == 1
    then (do
      modify (λ db. record db { events = replace_job_event job_id now db.events })
      row ← job_row job_id
      pure (some row))
    else pure none

unfoldable pub request_cancel : ℕ → Datetime → Tx (Option Job)
unfolding publish
request_cancel job_id at = require_aware at λ now. begin (do
  n ← update_jobs (λ j. has_id job_id j && is_live j.status) (to_cancel now)
  publish n job_id now)

abbrev pub to_retried : ℕ → Job → Job
to_retried now j = record j {
  status = queued;
  lease_owner = none;
  lease_expires_at = none;
  next_run_at = some now;
  cancel_requested_at = none;
  progress_current = 0;
  error_code = none;
  error_summary = none;
  updated_at = now;
}

unfoldable pub retry_failed : ℕ → Datetime → Tx (Option Job)
unfolding publish
retry_failed job_id at = require_aware at λ now. begin (do
  n ← update_jobs (λ j. has_id job_id j && is_failed j.status) (to_retried now)
  publish n job_id now)

unfoldable pub acknowledge_cancel : ℕ → ℕ → ℕ → Datetime → Tx Job
unfolding require_cancel_lease close_attempt_by_id set_terminal_for_cancel_lease
acknowledge_cancel job_id worker_id attempt_id at = require_aware at λ now. begin (do
  require_cancel_lease job_id worker_id attempt_id now
  close_attempt_by_id job_id attempt_id now Outcome.canceled none none
  set_terminal_for_cancel_lease job_id worker_id now)

abbrev pub emit : ℕ → ℕ → Tx (Unit {0})
emit job_id now = modify (λ db. record db { events = emit_job_event job_id now db.events })

unfoldable pub complete : ℕ → Option ℕ → ℕ → ℕ → Datetime → Tx Job
unfolding require_live_lease close_attempt_by_id set_terminal_for_lease
complete job_id result_artifact_id worker_id attempt_id at = require_aware at λ now. begin (do
  require_live_lease job_id worker_id attempt_id now
  close_attempt_by_id job_id attempt_id now Outcome.succeeded none none
  row ← set_terminal_for_lease job_id succeeded worker_id now result_artifact_id none none
  emit job_id now
  pure row)

-- `clock` is the instant that the method reads itself.
unfoldable pub defer : ℕ → Datetime → ℕ → Tx Job
unfolding job_row
defer job_id at clock = require_aware at λ next_run_at. begin (do
  update_jobs (has_id job_id) (λ j. record j { next_run_at = some next_run_at; updated_at = clock })
  job_row job_id)

-- The EXISTS of `mark_provider_sent`: the worker holds the job. The lease's end is not tested.
abbrev pub is_holder : ℕ → ℕ → Job → Bool
is_holder job_id worker_id j =
    has_id job_id j && (is_held j.status && opt_eq j.lease_owner (some worker_id))

unfoldable pub mark_provider_sent : ℕ → ℕ → ℕ → ℕ → ℕ → Tx (Unit {0})
mark_provider_sent job_id worker_id attempt_id provider_request_id clock = begin (do
  holders ← gets (λ db. count_where (is_holder job_id worker_id) db.jobs)
  n ←
      update_attempts (λ a. is_open_attempt job_id attempt_id a && not (holders == 0))
        (λ a. record a { provider_request_id = some provider_request_id; updated_at = clock })
  raise_unless (n == 1) lease_lost)
