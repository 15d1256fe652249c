-- ===== src/Jobs/Recovery.antt =====
-- `JobRunner.recover_expired` (backend/app/modules/jobs/runner.py): what becomes of the jobs whose
-- worker stopped renewing its lease.
use truyenaudio_studio.Prelude.{
  ℕ, ◌+◌, Bool, true, false, Option, none, some, List, [], ◌∷◌, ◌&&◌, if◌then◌else◌, leb,
  select_where,
}
use truyenaudio_studio.Jobs.Schema.{
  Job, JobAttempt, billing_unknown, canceled, failed, Outcome, seconds, is_held,
  is_cancel_requested,
}
use truyenaudio_studio.Jobs.Tx.{Tx, pure, gets, begin, Datetime, require_aware, ◌>>=◌, ◌>>◌}
use truyenaudio_studio.Jobs.Retry.{RetryDecision, classify_retry}
use truyenaudio_studio.Jobs.Rows.{max_attempt_no, current_attempt, order_rows}
use truyenaudio_studio.Jobs.Leases.{ErrorRecord, close_open_attempt, requeue, set_terminal}
use truyenaudio_studio.Jobs.Failure.{says_retry, delay_or_zero}

abbrev pub recovery_threshold_seconds : ℕ
recovery_threshold_seconds = 90

abbrev pub is_stale : ℕ → Option ℕ → Bool
is_stale now none = false
is_stale now (some e) = leb (e + seconds recovery_threshold_seconds) now

-- The SELECT of `recover_expired`; `lease_expires_at <= now - 90 s` is written without the difference.
abbrev pub needs_recovery : ℕ → Job → Bool
needs_recovery now j = is_held j.status && is_stale now j.lease_expires_at

-- `_current_provider_request_id`
abbrev pub provider_request_id_of : Option JobAttempt → Option ℕ
provider_request_id_of none = none
provider_request_id_of (some a) = a.provider_request_id

abbrev pub expired_error : ErrorRecord
expired_error = record {
  code = "DB_BUSY";
  summary = "Lease expired";
  retryable = true;
  provider_request_sent = false;
  retry_after_seconds = none;
  redacted_detail = none;
}

-- The attempt never reached the provider: requeue the job while the retry policy allows.
unfoldable pub recover_unsent : ℕ → ℕ → RetryDecision → Tx Job
unfolding close_open_attempt requeue set_terminal
recover_unsent now job_id decision =
    if says_retry decision.disposition
    then (do
      close_open_attempt job_id now Outcome.expired_retry none none
      requeue job_id now (now + seconds (delay_or_zero decision.delay_seconds)) expired_error)
    else (do
      close_open_attempt job_id now Outcome.failed none (some expired_error)
      set_terminal job_id failed now none (some expired_error.code) (some expired_error.summary))

unfoldable pub recover_canceled : ℕ → ℕ → Tx Job
unfolding close_open_attempt set_terminal
recover_canceled now job_id = do
  close_open_attempt job_id now Outcome.canceled none none
  set_terminal job_id canceled now none none none

unfoldable pub recover_sent : ℕ → ℕ → Option ℕ → Tx Job
unfolding close_open_attempt set_terminal
recover_sent now job_id request_id = do
  close_open_attempt job_id now Outcome.billing_unknown request_id none
  set_terminal job_id billing_unknown now none (some "BILLING_UNKNOWN")
      (some "Provider request was sent before lease expired")

-- The branch that the loop body takes for one row.
unfoldable pub recover_row : ℕ → Job → Option ℕ → ℕ → Tx Job
unfolding recover_unsent recover_canceled recover_sent
recover_row now row (some request_id) attempt_no = recover_sent now row.id (some request_id)
recover_row now row none attempt_no =
    if is_cancel_requested row.status
    then recover_canceled now row.id
    else recover_unsent now row.id (classify_retry expired_error.code attempt_no none)

unfoldable pub recover_one : ℕ → Job → Tx Job
unfolding recover_row
recover_one now row = do
  request_id ← gets (λ db. provider_request_id_of (current_attempt row.id db.attempts))
  attempt_no ← gets (λ db. max_attempt_no row.id db.attempts)
  recover_row now row request_id attempt_no

unfoldable pub recover_rows : ℕ → List Job → Tx (List ℕ)
unfolding recover_one
recover_rows now [] = pure []
recover_rows now (row ∷ rows) = do
  recover_one now row
  ids ← recover_rows now rows
  pure (row.id ∷ ids)

unfoldable pub recover_expired : Datetime → Tx (List ℕ)
unfolding recover_rows
recover_expired at = require_aware at λ now. begin (do
  rows ← gets (λ db. order_rows (select_where (needs_recovery now) db.jobs))
  recover_rows now rows)
