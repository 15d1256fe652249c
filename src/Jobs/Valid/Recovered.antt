-- ===== src/Jobs/Valid/Recovered.antt =====
-- `recover_expired` keeps the invariant: so does each row of its loop.
use truyenaudio_studio.Prelude.{
  ℕ, ◌+◌, ◌≡◌, refl, inl, inr, false, Option, none, some, List, [], ◌∷◌, arith, Bool-cases, String,
  select_where,
}
use truyenaudio_studio.Jobs.Schema.{
  Job, JobStatus, Db, Outcome, canceled, failed, billing_unknown, is_held, is_cancel_requested,
  seconds,
}
use truyenaudio_studio.Jobs.Tx.{aware, naive, Datetime, ◌>>=◌}
use truyenaudio_studio.Jobs.Retry.{RetryDecision, classify_retry}
use truyenaudio_studio.Jobs.Rows.{order_rows, current_attempt, max_attempt_no}
use truyenaudio_studio.Jobs.Leases.{
  ErrorRecord, close_open_attempt, set_terminal, requeue, to_terminal, to_queued,
}
use truyenaudio_studio.Jobs.Recovery.{
  recover_expired, recover_rows, recover_one, recover_row, recover_sent, recover_canceled,
  recover_unsent, expired_error, provider_request_id_of, needs_recovery,
}
use truyenaudio_studio.Jobs.Failure.{says_retry, delay_or_zero}
use truyenaudio_studio.Jobs.Valid.{IsValid}
use truyenaudio_studio.Jobs.Valid.Writes.{recovery-IsValid}
use truyenaudio_studio.Jobs.Valid.Methods.{
  terminal-SameKeys, terminal-IsFreed, queued-SameKeys, queued-IsFreed,
}

module _ (db : Db) (v : IsValid db) (now job_id : ℕ) where
  -- Closing the current attempt and ending the job, as three branches of the loop do.
  ended :
      (o : Outcome) (r : Option ℕ) (e : Option ErrorRecord) (s : JobStatus) (c m : Option String)
      → is_held s ≡ false
      → IsValid
          ((close_open_attempt job_id now o r e >>= λ _. set_terminal job_id s now none c m) db).1
  unfolding close_open_attempt set_terminal
  ended o r e s c m free = ground (
    arith,
    recovery-IsValid db v now o r e (to_terminal s now none c m) (terminal-SameKeys s now none c m)
        (λ x. terminal-IsFreed s now none c m x free) job_id db.events,
  )

  requeued :
      (d : ℕ)
      → IsValid
          ((close_open_attempt job_id now Outcome.expired_retry none none >>= λ _.
              requeue job_id now d expired_error)
            db).1
  unfolding close_open_attempt requeue
  requeued d = ground (
    arith,
    recovery-IsValid db v now Outcome.expired_retry none none (to_queued now d expired_error)
        (queued-SameKeys now d expired_error) (queued-IsFreed now d expired_error) job_id db.events,
  )

  recover_unsent-IsValid : (d : RetryDecision) → IsValid (recover_unsent now job_id d db).1
  unfolding recover_unsent
  recover_unsent-IsValid d = elim (Bool-cases (says_retry d.disposition)) [
    | inl again ↦ rw again (requeued (now + seconds (delay_or_zero d.delay_seconds)))
    | inr never ↦ rw never (
        ended Outcome.failed none (some expired_error) failed (some expired_error.code)
          (some expired_error.summary) refl)
  ]

  recover_row-IsValid :
      (row : Job) (r : Option ℕ) (n : ℕ) → row.id ≡ job_id → IsValid (recover_row now row r n db).1
  unfolding recover_row recover_sent recover_canceled
  recover_row-IsValid row (some request_id) n e = rw e (
      ended Outcome.billing_unknown (some request_id) none billing_unknown (some "BILLING_UNKNOWN")
        (some "Provider request was sent before lease expired") refl)
  recover_row-IsValid row none n e = elim (Bool-cases (is_cancel_requested row.status)) [
    | inl asked ↦ rw (asked, e) (ended Outcome.canceled none none canceled none none refl)
    | inr unasked ↦
        rw (unasked, e) (recover_unsent-IsValid (classify_retry expired_error.code n none))
  ]

pub recover_one-IsValid :
    (db : Db) (v : IsValid db) (now : ℕ) (row : Job) → IsValid (recover_one now row db).1
unfolding recover_one
recover_one-IsValid db v now row =
    recover_row-IsValid db v now row.id row
      (provider_request_id_of (current_attempt row.id db.attempts))
      (max_attempt_no row.id db.attempts) refl

-- The rest of the loop runs on what the row before left, or not at all.
recover_rows-IsValid :
    (rows : List Job) (db : Db) (v : IsValid db) (now : ℕ) → IsValid (recover_rows now rows db).1
unfolding recover_rows
recover_rows-IsValid [] db v now = v
recover_rows-IsValid (row ∷ rows) db v now = ground (
  arith,
  recover_one-IsValid db v now row,
  recover_rows-IsValid rows (recover_one now row db).1 (recover_one-IsValid db v now row) now,
)

pub recover_expired-IsValid :
    (at : Datetime) (db : Db) → IsValid db → IsValid (recover_expired at db).1
unfolding recover_expired
recover_expired-IsValid (naive t) db v = v
recover_expired-IsValid (aware t) db v =
    ground
      (arith, v, recover_rows-IsValid (order_rows (select_where (needs_recovery t) db.jobs)) db v t)
