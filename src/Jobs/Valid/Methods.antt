-- ===== src/Jobs/Valid/Methods.antt =====
-- The lease-scoped methods keep the invariant, whether they return or raise.
use truyenaudio_studio.Prelude.{
  ℕ, ◌+◌, ◌≡◌, refl, inl, inr, false, Option, none, some, arith, Bool-cases, String, is_some, ◌||◌,
  ◌&&◌,
}
use truyenaudio_studio.Jobs.Schema.{
  Job, JobAttempt, JobStatus, Db, Outcome, is_running, is_cancel_requested, succeeded, failed,
  billing_unknown, is_held, seconds,
}
use truyenaudio_studio.Jobs.Tx.{
  aware, naive, Datetime, Tx, Result, ok, err, begin, rollback_to, ◌>>=◌,
}
use truyenaudio_studio.Jobs.Retry.{RetryDecision, classify_retry}
use truyenaudio_studio.Jobs.Rows.{emit_job_event, find_job, current_attempt}
use truyenaudio_studio.Jobs.Leases.{
  ErrorRecord, to_terminal, to_canceled, to_queued, check_lease, require_lease, require_live_lease,
}
use truyenaudio_studio.Jobs.Runner.{complete, acknowledge_cancel}
use truyenaudio_studio.Jobs.Failure.{
  fail_job, fail_attempt, fail_unbilled, fail_retry, fail_definitely, delay_or_zero, says_retry,
}
use truyenaudio_studio.Jobs.Valid.{IsValid}
use truyenaudio_studio.Jobs.Valid.Writes.{release-IsValid, SameKeys, IsFreed}

pub terminal-SameKeys :
    (s : JobStatus) (now : ℕ) (r : Option ℕ) (c m : Option String) (x : Job)
    → SameKeys x (to_terminal s now r c m x)
terminal-SameKeys s now r c m x = ground arith

pub terminal-IsFreed :
    (s : JobStatus) (now : ℕ) (r : Option ℕ) (c m : Option String) (x : Job)
    → is_held s ≡ false
    → IsFreed (to_terminal s now r c m x)
terminal-IsFreed s now r c m x h = ground arith

pub queued-SameKeys :
    (now next : ℕ) (e : ErrorRecord) (x : Job) → SameKeys x (to_queued now next e x)
queued-SameKeys now next e x = ground arith

pub queued-IsFreed : (now next : ℕ) (e : ErrorRecord) (x : Job) → IsFreed (to_queued now next e x)
queued-IsFreed now next e x = ground arith

-- What a transaction commits is valid.
abbrev pub Commits : {A : Type 0} → Tx A → Db → Type 0
Commits {A} m db = (a : A) → (m db).0 ≡ ok a → IsValid (m db).1

-- A raise restores the tables, so only what is committed matters.
pub begin-IsValid :
    {A : Type 0} (m : Tx A) (db : Db) → IsValid db → Commits m db → IsValid (begin m db).1
begin-IsValid {A} m db v c = settle (m db) c
  where
    settle :
        (out : Result A × Db)
        → ((a : A) → out.0 ≡ ok a → IsValid out.1)
        → IsValid (rollback_to db out).1
    settle (ok a, after) h = h a refl
    settle (err e, after) h = v

-- A check that only reads, and what runs if it passes.
checked-Commits :
    {A B : Type 0} (r : Result A) (k : A → Tx B) (db : Db)
    → ((a : A) → Commits (k a) db)
    → Commits ((λ s. (r, s)) >>= k) db
checked-Commits (ok a) k db h = h a
checked-Commits (err e) k db h = λ b p. cc

module _ (job_id worker_id attempt_id : ℕ) (db : Db) (v : IsValid db) where
  pub complete-IsValid :
      (r : Option ℕ) (at : Datetime) → IsValid (complete job_id r worker_id attempt_id at db).1
  unfolding complete check_lease
  complete-IsValid r (naive t) = v
  complete-IsValid r (aware t) = ground (
    arith,
    v,
    release-IsValid db v t Outcome.succeeded none none (to_terminal succeeded t r none none)
        (terminal-SameKeys succeeded t r none none)
        (λ x. terminal-IsFreed succeeded t r none none x refl) is_running job_id attempt_id
        worker_id t (emit_job_event job_id t db.events),
  )

  pub acknowledge_cancel-IsValid :
      (at : Datetime) → IsValid (acknowledge_cancel job_id worker_id attempt_id at db).1
  unfolding acknowledge_cancel check_lease
  acknowledge_cancel-IsValid (naive t) = v
  acknowledge_cancel-IsValid (aware t) = ground (
    arith,
    v,
    release-IsValid db v t Outcome.canceled none none (to_canceled t) (λ x. ground arith)
        (λ x. ground arith) is_cancel_requested job_id attempt_id worker_id t db.events,
  )

  module _ (error : ErrorRecord) (t : ℕ) where
    fail_unbilled-Commits :
        (a : JobAttempt) → Commits (fail_unbilled job_id error worker_id attempt_id t a) db
    unfolding fail_unbilled
    fail_unbilled-Commits a row h = ground (
      arith,
      release-IsValid db v t Outcome.billing_unknown a.provider_request_id (some error)
          (to_terminal billing_unknown t none (some "BILLING_UNKNOWN") (some error.summary))
          (terminal-SameKeys billing_unknown t none (some "BILLING_UNKNOWN") (some error.summary))
          (λ x.
            terminal-IsFreed billing_unknown t none (some "BILLING_UNKNOWN") (some error.summary) x
              refl)
          is_running job_id attempt_id worker_id t (emit_job_event job_id t db.events),
    )

    fail_definitely-Commits : Commits (fail_definitely job_id error worker_id attempt_id t) db
    unfolding fail_definitely
    fail_definitely-Commits row h = ground (
      arith,
      release-IsValid db v t Outcome.failed none (some error)
          (to_terminal failed t none (some error.code) (some error.summary))
          (terminal-SameKeys failed t none (some error.code) (some error.summary))
          (λ x. terminal-IsFreed failed t none (some error.code) (some error.summary) x refl)
          is_running job_id attempt_id worker_id t (emit_job_event job_id t db.events),
    )

    fail_retry-Commits :
        (d : RetryDecision) → Commits (fail_retry job_id error worker_id attempt_id t d) db
    unfolding fail_retry
    fail_retry-Commits d row h = ground (
      arith,
      release-IsValid db v t Outcome.retry none (some error)
          (to_queued t (t + seconds (delay_or_zero d.delay_seconds)) error)
          (queued-SameKeys t (t + seconds (delay_or_zero d.delay_seconds)) error)
          (queued-IsFreed t (t + seconds (delay_or_zero d.delay_seconds)) error) is_running job_id
          attempt_id worker_id t db.events,
    )

  fail_attempt-Commits :
      (error : ErrorRecord) (t : ℕ) (a : JobAttempt)
      → Commits (fail_attempt job_id error worker_id attempt_id t a) db
  unfolding fail_attempt
  fail_attempt-Commits error t a row =
      elim (Bool-cases (error.provider_request_sent || is_some a.provider_request_id)) [
        | inl sent ↦ rw sent (fail_unbilled-Commits error t a row)
        | inr unsent ↦
            elim (Bool-cases (
              error.retryable
              && says_retry
                  (classify_retry error.code a.attempt_no error.retry_after_seconds).disposition)) [
                    | inl again ↦
                        rw (unsent, again)
                          (fail_retry-Commits error t
                            (classify_retry error.code a.attempt_no error.retry_after_seconds) row)
                    | inr never ↦ rw (unsent, never) (fail_definitely-Commits error t row)
                  ]
      ]

  pub fail-IsValid :
      (error : ErrorRecord) (at : Datetime)
      → IsValid (fail_job job_id error worker_id attempt_id at db).1
  unfolding fail_job require_lease require_live_lease
  fail-IsValid error (naive t) = v
  fail-IsValid error (aware t) =
      begin-IsValid
        (require_live_lease job_id worker_id attempt_id t
          >>= fail_attempt job_id error worker_id attempt_id t)
        db v
        (checked-Commits
          (check_lease is_running (find_job job_id db.jobs) (current_attempt job_id db.attempts)
            worker_id attempt_id t)
          (fail_attempt job_id error worker_id attempt_id t) db (fail_attempt-Commits error t))
