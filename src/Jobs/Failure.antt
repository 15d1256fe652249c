-- ===== src/Jobs/Failure.antt =====
-- `JobRunner.fail` (backend/app/modules/jobs/runner.py): a failed attempt ends as BILLING_UNKNOWN if
-- the provider may have been reached, is requeued if the failure is retryable, and fails otherwise.
use truyenaudio_studio.Prelude.{
  ℕ, ◌+◌, Bool, true, false, Option, none, some, ◌&&◌, ◌||◌, if◌then◌else◌, is_some,
}
use truyenaudio_studio.Jobs.Schema.{Job, JobAttempt, billing_unknown, failed, Outcome, seconds}
use truyenaudio_studio.Jobs.Tx.{Tx, pure, begin, Datetime, require_aware, ◌>>=◌, ◌>>◌}
use truyenaudio_studio.Jobs.Retry.{RetryDecision, RetryDisposition, retry, fail, classify_retry}
use truyenaudio_studio.Jobs.Leases.{
  ErrorRecord, require_live_lease, close_attempt_by_id, set_terminal_for_lease, requeue_for_lease,
}
use truyenaudio_studio.Jobs.Runner.{emit}

-- decision.disposition is RetryDisposition.RETRY
abbrev pub says_retry : RetryDisposition → Bool
says_retry retry = true
says_retry fail = false

-- `decision.delay_seconds or 0`
abbrev pub delay_or_zero : Option ℕ → ℕ
delay_or_zero none = 0
delay_or_zero (some d) = d

-- The provider may have been reached: no retry, whatever the error.
unfoldable pub fail_unbilled : ℕ → ErrorRecord → ℕ → ℕ → ℕ → JobAttempt → Tx Job
unfolding close_attempt_by_id set_terminal_for_lease
fail_unbilled job_id error worker_id attempt_id now attempt = do
  close_attempt_by_id job_id attempt_id now Outcome.billing_unknown attempt.provider_request_id
      (some error)
  row ←
      set_terminal_for_lease job_id billing_unknown worker_id now none (some "BILLING_UNKNOWN")
        (some error.summary)
  emit job_id now
  pure row

unfoldable pub fail_retry : ℕ → ErrorRecord → ℕ → ℕ → ℕ → RetryDecision → Tx Job
unfolding close_attempt_by_id requeue_for_lease
fail_retry job_id error worker_id attempt_id now decision = do
  close_attempt_by_id job_id attempt_id now Outcome.retry none (some error)
  requeue_for_lease job_id worker_id now (now + seconds (delay_or_zero decision.delay_seconds))
      error

unfoldable pub fail_definitely : ℕ → ErrorRecord → ℕ → ℕ → ℕ → Tx Job
unfolding close_attempt_by_id set_terminal_for_lease
fail_definitely job_id error worker_id attempt_id now = do
  close_attempt_by_id job_id attempt_id now Outcome.failed none (some error)
  row ←
      set_terminal_for_lease job_id failed worker_id now none (some error.code) (some error.summary)
  emit job_id now
  pure row

-- What is done with the attempt, once the lease has been checked.
unfoldable pub fail_attempt : ℕ → ErrorRecord → ℕ → ℕ → ℕ → JobAttempt → Tx Job
unfolding fail_unbilled fail_retry fail_definitely
fail_attempt job_id error worker_id attempt_id now attempt =
    let decision = classify_retry error.code attempt.attempt_no error.retry_after_seconds in
    if error.provider_request_sent || is_some attempt.provider_request_id
    then fail_unbilled job_id error worker_id attempt_id now attempt
    else if error.retryable && says_retry decision.disposition
    then fail_retry job_id error worker_id attempt_id now decision
    else fail_definitely job_id error worker_id attempt_id now

unfoldable pub fail_job : ℕ → ErrorRecord → ℕ → ℕ → Datetime → Tx Job
unfolding require_live_lease fail_attempt
fail_job job_id error worker_id attempt_id at = require_aware at λ now. begin (do
  attempt ← require_live_lease job_id worker_id attempt_id now
  fail_attempt job_id error worker_id attempt_id now attempt)
