-- ===== src/Jobs/Contract/Billing.antt =====
-- `fail` never sends a paid request again by itself: an attempt that may have reached the provider ends
-- as BILLING_UNKNOWN, and a requeued one has not reached it, was retryable, and waits a bounded time.
use truyenaudio_studio.Prelude.{
  ℕ, ◌+◌, ◌≤◌, ◌≡◌, ◌∙◌, refl, inl, inr, Bool, true, false, ◌&&◌, ◌||◌, none, some, arith,
  if◌then◌else◌, is_some, Bool-cases, count_where, update_where,
}
use truyenaudio_studio.Jobs.Schema.{
  Job, JobAttempt, Db, is_running, is_queued, billing_unknown, failed, seconds,
}
use truyenaudio_studio.Jobs.Tx.{aware, ok}
use truyenaudio_studio.Jobs.Retry.{classify_retry, RetryDecision}
use truyenaudio_studio.Jobs.Retry.Bounds.{classify_retry_bounds}
use truyenaudio_studio.Jobs.Rows.{find_job}
use truyenaudio_studio.Jobs.Leases.{ErrorRecord, check_lease, holds_lease, to_terminal, to_queued}
use truyenaudio_studio.Jobs.Failure.{fail_job, fail_attempt, delay_or_zero, says_retry}
use truyenaudio_studio.Jobs.Valid.{IsValid}
use truyenaudio_studio.Jobs.Valid.Find.{found-count, find_job-has_id}
use truyenaudio_studio.Jobs.Trace.Frame.{find_job-update}
use truyenaudio_studio.Jobs.Contract.Fencing.{HoldsLease, current-count}

-- The provider may have seen the request: the error says so, or the attempt has a request identifier.
abbrev pub may_be_billed : ErrorRecord → JobAttempt → Bool
may_be_billed error a = error.provider_request_sent || is_some a.provider_request_id

abbrev pub unbilled_row : ℕ → ErrorRecord → Job → Job
unbilled_row now error r =
    to_terminal billing_unknown now none (some "BILLING_UNKNOWN") (some error.summary) r

module _ (job_id worker_id attempt_id now : ℕ) (error : ErrorRecord) (db : Db) (v : IsValid db)
    (h : HoldsLease db job_id worker_id attempt_id now) where
  pub one_holder : count_where (holds_lease is_running job_id worker_id now) db.jobs ≡ 1
  one_holder =
      found-count job_id _ db.jobs v.jobs_distinct h.row_found
        (ground (arith, h.is_running_row, h.owned, h.live))

  pub holder_row :
      (g : Job → Job)
      → ((x : Job) → (g x).id ≡ x.id)
      → find_job job_id (update_where (holds_lease is_running job_id worker_id now) g db.jobs)
        ≡ some (g h.row)
  holder_row g same =
      find_job-update job_id (holds_lease is_running job_id worker_id now) g db.jobs same
        h.row_found
      ∙ ground
          (arith, h.is_running_row, h.owned, h.live, find_job-has_id job_id db.jobs h.row_found)

  -- On valid tables, `fail` by the holder of a live lease on the running job, for an attempt that may have
  -- reached the provider, returns a row that is BILLING_UNKNOWN, whatever the error, and stores it.
  pub fail-billing_unknown :
      may_be_billed error h.attempt ≡ true
      → let out = fail_job job_id error worker_id attempt_id (aware now) db in
        (out.0 ≡ ok (unbilled_row now error h.row))
        × (find_job job_id out.1.jobs ≡ some (unbilled_row now error h.row))
  unfolding fail_job check_lease fail_attempt
  fail-billing_unknown sent = ground (
    arith,
    sent,
    h.row_found,
    h.is_running_row,
    h.owned,
    h.live,
    h.current,
    h.same_attempt,
    one_holder,
    holder_row (to_terminal billing_unknown now none (some "BILLING_UNKNOWN") (some error.summary))
        (λ x. refl),
    current-count job_id attempt_id db.attempts v.attempts_distinct h.current h.same_attempt,
  )

  abbrev decision : RetryDecision
  decision = classify_retry error.code h.attempt.attempt_no error.retry_after_seconds

  -- What `fail` does with an attempt that has not reached the provider.
  unsent_outcome :
      may_be_billed error h.attempt ≡ false
      → let out = fail_job job_id error worker_id attempt_id (aware now) db in
        out.0
        ≡ ok (
            if error.retryable && says_retry decision.disposition
            then to_queued now (now + seconds (delay_or_zero decision.delay_seconds)) error h.row
            else to_terminal failed now none (some error.code) (some error.summary) h.row)
  unfolding fail_job check_lease fail_attempt
  unsent_outcome unsent = ground (
    arith,
    unsent,
    h.row_found,
    h.is_running_row,
    h.owned,
    h.live,
    h.current,
    h.same_attempt,
    one_holder,
    holder_row (to_terminal failed now none (some error.code) (some error.summary)) (λ x. refl),
    holder_row (to_queued now (now + seconds (delay_or_zero decision.delay_seconds)) error)
        (λ x. refl),
    current-count job_id attempt_id db.attempts v.attempts_distinct h.current h.same_attempt,
  )

  -- On valid tables, if `fail` by the holder of a live lease on the running job returns a queued row, then
  -- the attempt has not reached the provider, the error is retryable, the attempt is the first, second or
  -- third, and the job is due again at most 600 seconds later.
  pub fail-requeues :
      (row : Job)
      → (fail_job job_id error worker_id attempt_id (aware now) db).0 ≡ ok row
      → is_queued row.status ≡ true
      → (may_be_billed error h.attempt ≡ false)
        × (error.retryable ≡ true)
        × (1 ≤ h.attempt.attempt_no)
        × (h.attempt.attempt_no ≤ 3)
        × ((d : ℕ) × (row.next_run_at ≡ some (now + seconds d)) × (d ≤ 600))
  fail-requeues row done back = elim (Bool-cases (may_be_billed error h.attempt)) [
    | inl sent ↦ absurd (ground (arith, done, back, fail-billing_unknown sent))
    | inr unsent ↦ elim (Bool-cases (error.retryable && says_retry decision.disposition)) [
      | inr never ↦ absurd (ground (arith, never, done, back, unsent_outcome unsent))
      | inl again ↦
          (let (lo, hi, (d, is_d, small)) =
              classify_retry_bounds error.code h.attempt.attempt_no error.retry_after_seconds
                (ground (arith, again)) in
            (
              unsent,
              ground (arith, again),
              lo,
              hi,
              (d, ground (arith, again, is_d, done, back, unsent_outcome unsent), small),
            ))
    ]
  ]
