-- ===== src/Jobs/Runner/Claim.antt =====
-- `claim` and `heartbeat` of backend/app/modules/jobs/runner.py: taking a lease and extending it.
use truyenaudio_studio.Prelude.{
  ℕ, ◌+◌, Bool, true, Option, none, some, ◌&&◌, not, leb, ◌==◌, if◌then◌else◌, opt_eq, select_where,
  List,
}
use truyenaudio_studio.Jobs.Schema.{Job, JobAttempt, JobKind, running, seconds, is_held, is_queued}
use truyenaudio_studio.Jobs.Tx.{Tx, pure, gets, begin, Datetime, require_aware, ◌>>=◌, ◌>>◌}
use truyenaudio_studio.Jobs.Rows.{
  has_id, update_jobs, update_attempts, current_attempt, attempt_is, max_attempt_no, insert_attempt,
  first_row, order_rows,
}
use truyenaudio_studio.Jobs.Leases.{is_open_attempt, has_expired}

abbrev pub lease_seconds : ℕ
lease_seconds = 60

pub record JobLease : Type 0 where
  pub job_id : ℕ
  pub kind : JobKind
  pub worker_id : ℕ
  pub attempt_id : ℕ
  pub attempt_no : ℕ
  pub lease_expires_at : ℕ
  pub heartbeat_at : ℕ

pub record HeartbeatView : Type 0 where
  pub job_id : ℕ
  pub worker_id : ℕ
  pub heartbeat_at : ℕ
  pub lease_expires_at : ℕ

-- next_run_at IS NULL OR next_run_at <= :now
abbrev pub is_due : ℕ → Option ℕ → Bool
is_due now none = true
is_due now (some t) = leb t now

abbrev pub is_ready : ℕ → Job → Bool
is_ready now j = is_queued j.status && is_due now j.next_run_at

abbrev pub to_running : ℕ → ℕ → Job → Job
to_running worker_id now j = record j {
  status = running;
  lease_owner = some worker_id;
  lease_expires_at = some (now + seconds lease_seconds);
  next_run_at = none;
  error_code = none;
  error_summary = none;
  updated_at = now;
}

abbrev pub new_attempt : ℕ → ℕ → ℕ → ℕ → JobAttempt
new_attempt attempt_id job_id attempt_no now = record {
  id = attempt_id;
  job_id = job_id;
  attempt_no = attempt_no;
  started_at = now;
  heartbeat_at = some now;
  finished_at = none;
  outcome = none;
  provider_request_id = none;
  error_class = none;
  redacted_detail = none;
  created_at = now;
  updated_at = now;
}

unfoldable pub claim_job : ℕ → ℕ → ℕ → Option Job → Tx (Option JobLease)
unfolding insert_attempt
claim_job worker_id attempt_id now none = pure none
claim_job worker_id attempt_id now (some job) = do
  attempt_no ← gets (λ db. max_attempt_no job.id db.attempts + 1)
  update_jobs (has_id job.id) (to_running worker_id now)
  insert_attempt (new_attempt attempt_id job.id attempt_no now)
  pure (
      some (record {
        job_id = job.id;
        kind = job.kind;
        worker_id = worker_id;
        attempt_id = attempt_id;
        attempt_no = attempt_no;
        lease_expires_at = now + seconds lease_seconds;
        heartbeat_at = now;
      }))

unfoldable pub next_ready : ℕ → List Job → Option Job
next_ready now jobs = first_row (order_rows (select_where (is_ready now) jobs))

unfoldable pub claim : ℕ → ℕ → Datetime → Tx (Option JobLease)
unfolding claim_job
claim worker_id attempt_id at = require_aware at λ now.
    begin (do found ← gets (λ db. next_ready now db.jobs); claim_job worker_id attempt_id now found)

-- The WHERE of `heartbeat` on the jobs table; `current` is the result of its EXISTS.
abbrev pub can_beat : ℕ → ℕ → ℕ → Bool → Job → Bool
can_beat job_id worker_id now current j =
    has_id job_id j
    && (is_held j.status
        && (opt_eq j.lease_owner (some worker_id)
            && (not (has_expired j.lease_expires_at now) && current)))

abbrev pub extend_lease : ℕ → Job → Job
extend_lease now j = record j {
  lease_expires_at = some (now + seconds lease_seconds);
  updated_at = now;
}

-- The write on the attempt, once `n` rows of the jobs table were written. The second test of
-- `result.rowcount` reads the first statement's result again, so it never fires.
unfoldable pub beat : ℕ → ℕ → ℕ → ℕ → ℕ → Tx (Option HeartbeatView)
beat n job_id worker_id attempt_id now =
    if n == 1
    then (do
      update_attempts (is_open_attempt job_id attempt_id)
          (λ a. record a { heartbeat_at = some now; updated_at = now })
      pure (
          some (record {
            job_id = job_id;
            worker_id = worker_id;
            heartbeat_at = now;
            lease_expires_at = now + seconds lease_seconds;
          })))
    else pure none

unfoldable pub heartbeat : ℕ → ℕ → ℕ → Datetime → Tx (Option HeartbeatView)
unfolding beat
heartbeat job_id worker_id attempt_id at = require_aware at λ now. begin (do
  current ← gets (λ db. attempt_is attempt_id (current_attempt job_id db.attempts))
  n ← update_jobs (can_beat job_id worker_id now current) (extend_lease now)
  beat n job_id worker_id attempt_id now)
