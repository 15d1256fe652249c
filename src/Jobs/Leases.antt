-- ===== src/Jobs/Leases.antt =====
-- The private methods of JobRunner (backend/app/modules/jobs/runner.py): lease checks, closing an
-- attempt, and the writes that end, requeue or cancel a job.
use truyenaudio_studio.Prelude.{
  ℕ, String, Bool, true, false, Option, none, some, ◌&&◌, not, ltb, ◌==◌, if◌then◌else◌, is_none,
  coalesce, opt_eq,
}
use truyenaudio_studio.Prelude.Int.{ℤ}
use truyenaudio_studio.Jobs.Schema.{
  Job, JobAttempt, JobStatus, queued, canceled, Outcome, is_running, is_cancel_requested,
}
use truyenaudio_studio.Jobs.Tx.{
  Tx, Result, ok, err, lease_lost, invalid_job_transition, gets, raise_unless, ◌>>=◌, ◌>>◌,
}
use truyenaudio_studio.Jobs.Rows.{
  has_id, find_job, job_row, update_jobs, update_attempts, current_attempt,
}

pub record ErrorRecord : Type 0 where
  pub code : String
  pub summary : String
  pub retryable : Bool
  pub provider_request_sent : Bool
  pub retry_after_seconds : Option ℤ
  pub redacted_detail : Option String

-- lease_expires_at IS NULL or lies before `now`.
abbrev pub has_expired : Option ℕ → ℕ → Bool
has_expired none now = true
has_expired (some e) now = ltb e now

abbrev pub match_attempt : Option JobAttempt → ℕ → Result JobAttempt
match_attempt none attempt_id = err lease_lost
match_attempt (some a) attempt_id = if a.id == attempt_id then ok a else err lease_lost

-- The tests of `_require_live_lease` and `_require_cancel_lease`, which differ in the status.
unfoldable pub check_lease :
    (JobStatus → Bool) → Option Job → Option JobAttempt → ℕ → ℕ → ℕ → Result JobAttempt
check_lease accepts none a worker_id attempt_id now = err invalid_job_transition
check_lease accepts (some j) a worker_id attempt_id now =
    if not (accepts j.status)
    then err invalid_job_transition
    else if not (opt_eq j.lease_owner (some worker_id))
    then err lease_lost
    else if has_expired j.lease_expires_at now
    then err lease_lost
    else match_attempt a attempt_id

unfoldable pub require_lease : (JobStatus → Bool) → ℕ → ℕ → ℕ → ℕ → Tx JobAttempt
unfolding check_lease
require_lease accepts job_id worker_id attempt_id now db = (
  check_lease accepts (find_job job_id db.jobs) (current_attempt job_id db.attempts) worker_id
      attempt_id now,
  db,
)

unfoldable pub require_live_lease : ℕ → ℕ → ℕ → ℕ → Tx JobAttempt
unfolding require_lease
require_live_lease = require_lease is_running

unfoldable pub require_cancel_lease : ℕ → ℕ → ℕ → ℕ → Tx JobAttempt
unfolding require_lease
require_cancel_lease = require_lease is_cancel_requested

abbrev pub error_class : Option ErrorRecord → Option String
error_class none = none
error_class (some e) = some e.code

abbrev pub error_detail : Option ErrorRecord → Option String
error_detail none = none
error_detail (some e) = e.redacted_detail

-- The SET list of both statements that close an attempt.
abbrev pub close : ℕ → Outcome → Option ℕ → Option ErrorRecord → JobAttempt → JobAttempt
close now outcome provider_request_id error a = record a {
  finished_at = some now;
  heartbeat_at = coalesce a.heartbeat_at (some now);
  outcome = some outcome;
  provider_request_id = coalesce provider_request_id a.provider_request_id;
  error_class = error_class error;
  redacted_detail = error_detail error;
  updated_at = now;
}

abbrev pub is_open_attempt : ℕ → ℕ → JobAttempt → Bool
is_open_attempt job_id attempt_id a =
    a.id == attempt_id && (a.job_id == job_id && is_none a.finished_at)

unfoldable pub close_attempt_by_id :
    ℕ → ℕ → ℕ → Outcome → Option ℕ → Option ErrorRecord → Tx (Unit {0})
close_attempt_by_id job_id attempt_id now outcome provider_request_id error = do
  n ←
      update_attempts (is_open_attempt job_id attempt_id)
        (close now outcome provider_request_id error)
  raise_unless (n == 1) lease_lost

-- WHERE id = (the current attempt); no row where there is none.
abbrev pub is_attempt : Option JobAttempt → JobAttempt → Bool
is_attempt none a = false
is_attempt (some c) a = a.id == c.id

unfoldable pub close_open_attempt : ℕ → ℕ → Outcome → Option ℕ → Option ErrorRecord → Tx ℕ
close_open_attempt job_id now outcome provider_request_id error = do
  current ← gets (λ db. current_attempt job_id db.attempts)
  update_attempts (is_attempt current) (close now outcome provider_request_id error)

abbrev pub to_queued : ℕ → ℕ → ErrorRecord → Job → Job
to_queued now next_run_at error j = record j {
  status = queued;
  lease_owner = none;
  lease_expires_at = none;
  next_run_at = some next_run_at;
  error_code = some error.code;
  error_summary = some error.summary;
  updated_at = now;
}

abbrev pub to_terminal : JobStatus → ℕ → Option ℕ → Option String → Option String → Job → Job
to_terminal status now result_artifact_id error_code error_summary j = record j {
  status = status;
  lease_owner = none;
  lease_expires_at = none;
  next_run_at = none;
  result_artifact_id = coalesce result_artifact_id j.result_artifact_id;
  error_code = error_code;
  error_summary = error_summary;
  updated_at = now;
}

abbrev pub to_canceled : ℕ → Job → Job
to_canceled now j = record j {
  status = canceled;
  lease_owner = none;
  lease_expires_at = none;
  next_run_at = none;
  error_code = none;
  error_summary = none;
  updated_at = now;
}

-- WHERE id = … AND status = … AND lease_owner = … AND lease_expires_at >= now
abbrev pub holds_lease : (JobStatus → Bool) → ℕ → ℕ → ℕ → Job → Bool
holds_lease accepts job_id worker_id now j =
    has_id job_id j
    && (accepts j.status
        && (opt_eq j.lease_owner (some worker_id) && not (has_expired j.lease_expires_at now)))

unfoldable pub requeue : ℕ → ℕ → ℕ → ErrorRecord → Tx Job
unfolding job_row
requeue job_id now next_run_at error = do
  update_jobs (has_id job_id) (to_queued now next_run_at error)
  job_row job_id

-- The lease-scoped writes: exactly one row must have been written.
unfoldable pub lease_write : (JobStatus → Bool) → ℕ → ℕ → ℕ → (Job → Job) → Tx Job
unfolding job_row
lease_write accepts job_id worker_id now f = do
  n ← update_jobs (holds_lease accepts job_id worker_id now) f
  raise_unless (n == 1) lease_lost
  job_row job_id

unfoldable pub requeue_for_lease : ℕ → ℕ → ℕ → ℕ → ErrorRecord → Tx Job
unfolding lease_write
requeue_for_lease job_id worker_id now next_run_at error =
    lease_write is_running job_id worker_id now (to_queued now next_run_at error)

unfoldable pub set_terminal : ℕ → JobStatus → ℕ → Option ℕ → Option String → Option String → Tx Job
unfolding job_row
set_terminal job_id status now result_artifact_id code summary = do
  update_jobs (has_id job_id) (to_terminal status now result_artifact_id code summary)
  job_row job_id

unfoldable pub set_terminal_for_lease :
    ℕ → JobStatus → ℕ → ℕ → Option ℕ → Option String → Option String → Tx Job
unfolding lease_write
set_terminal_for_lease job_id status worker_id now result_artifact_id code summary =
    lease_write is_running job_id worker_id now
      (to_terminal status now result_artifact_id code summary)

unfoldable pub set_terminal_for_cancel_lease : ℕ → ℕ → ℕ → Tx Job
unfolding lease_write
set_terminal_for_cancel_lease job_id worker_id now =
    lease_write is_cancel_requested job_id worker_id now (to_canceled now)
