-- ===== src/Jobs/Trace/Final.antt =====
-- Claims and recovery pass settled jobs over too, so a settled job stays settled along any trace.
use truyenaudio_studio.Prelude.{
  ℕ, ◌+◌, ◌≡◌, ◌≢◌, refl, ap, inl, inr, Bool, true, false, not, ◌&&◌, Option, none, some, List, [],
  ◌∷◌, arith, Option-cases, update_where, select_where, All, All-map, subst,
}
use truyenaudio_studio.Jobs.Schema.{
  Job, JobStatus, Db, is_failed, billing_unknown, canceled, failed, seconds,
}
use truyenaudio_studio.Jobs.Tx.{Datetime, aware, naive}
use truyenaudio_studio.Jobs.Retry.{classify_retry}
use truyenaudio_studio.Jobs.Rows.{has_id, find_job, order_rows, max_attempt_no, current_attempt}
use truyenaudio_studio.Jobs.Leases.{to_terminal, to_queued}
use truyenaudio_studio.Jobs.Runner.{claim, claim_job, next_ready, is_ready, to_running}
use truyenaudio_studio.Jobs.Failure.{delay_or_zero}
use truyenaudio_studio.Jobs.Recovery.{
  recover_expired, recover_rows, recover_one, recover_row, expired_error, needs_recovery,
  provider_request_id_of,
}
use truyenaudio_studio.Jobs.Valid.{IsValid}
use truyenaudio_studio.Jobs.Valid.Find.{
  find_job-has_id, All-find_job, All-select_where, All-order_rows,
}
use truyenaudio_studio.Jobs.Valid.Requests.{next_ready-IsReady}
use truyenaudio_studio.Jobs.Trace.{
  Call, enqueue_call, claim_call, heartbeat_call, request_cancel_call, retry_failed_call,
  acknowledge_cancel_call, complete_call, fail_call, defer_call, mark_provider_sent_call,
  recover_expired_call, perform, perform_all, perform-IsValid,
}
use truyenaudio_studio.Jobs.Trace.Settled.{
  is_settled, HasStatus, passed_over, complete-settled, acknowledge_cancel-settled,
  heartbeat-settled, request_cancel-settled, retry_failed-settled, defer-settled,
  mark_provider_sent-settled, enqueue-settled, fail-settled,
}

module _ (db : Db) (i : ℕ) (r : Job) (found : find_job i db.jobs ≡ some r) (now : ℕ) (row : Job)
    (other : row.id ≢ i) where
  passed_row :
      (g : Job → Job)
      → ((x : Job) → (g x).id ≡ x.id)
      → find_job i (update_where (has_id row.id) g db.jobs) ≡ some r
  passed_row g same =
      passed_over db i r found (has_id row.id) g same
        (ground (arith, other, find_job-has_id i db.jobs found))

  recover_row-other :
      (request_id : Option ℕ) (n : ℕ)
      → find_job i (recover_row now row request_id n db).1.jobs ≡ some r
  unfolding recover_row
  recover_row-other (some request_id) n = ground (
    arith,
    passed_row
        (to_terminal billing_unknown now none (some "BILLING_UNKNOWN")
          (some "Provider request was sent before lease expired"))
        (λ x. refl),
  )
  recover_row-other none n =
      let d = (classify_retry expired_error.code n none).delay_seconds in
      ground (
        arith,
        passed_row (to_terminal canceled now none none none) (λ x. refl),
        passed_row
            (to_terminal failed now none (some expired_error.code) (some expired_error.summary))
            (λ x. refl),
        passed_row (to_queued now (now + seconds (delay_or_zero d)) expired_error) (λ x. refl),
      )

  pub recover_one-other : find_job i (recover_one now row db).1.jobs ≡ some r
  unfolding recover_one
  recover_one-other =
      recover_row-other (provider_request_id_of (current_attempt row.id db.attempts))
        (max_attempt_no row.id db.attempts)

-- The loop leaves a job alone that is not among its rows.
pub recover_rows-other :
    (rows : List Job) (db : Db) (i : ℕ) (r : Job) (now : ℕ)
    → find_job i db.jobs ≡ some r
    → All (λ row. row.id ≢ i) rows
    → find_job i (recover_rows now rows db).1.jobs ≡ some r
unfolding recover_rows
recover_rows-other [] db i r now found others = found
recover_rows-other (row ∷ rows) db i r now found others = ground (
  arith,
  recover_one-other db i r found now row others.0,
  recover_rows-other rows (recover_one now row db).1 i r now
      (recover_one-other db i r found now row others.0) others.1,
)

module _ (db : Db) (v : IsValid db) (i : ℕ) (r : Job) (found : find_job i db.jobs ≡ some r) where
  -- The rows that need recovery are rows of the table.
  pub rows-other :
      (now : ℕ)
      → needs_recovery now r ≡ false
      → All (λ row. row.id ≢ i) (order_rows (select_where (needs_recovery now) db.jobs))
  rows-other now calm =
      All-map (λ row. (find_job row.id db.jobs ≡ some row) × (needs_recovery now row ≡ true))
        (λ row. row.id ≢ i) (order_rows (select_where (needs_recovery now) db.jobs))
        (λ row h e. ground (arith, found, calm, h, ap (λ (k : ℕ). find_job k db.jobs) e))
        (All-order_rows _ _ (
          All-select_where (λ row. find_job row.id db.jobs ≡ some row) (needs_recovery now) db.jobs
            (All-find_job db.jobs v.jobs_distinct)))

  module _ (settled : is_settled r.status ≡ true) where
    recover_expired-settled : (at : Datetime) → find_job i (recover_expired at db).1.jobs ≡ some r
    unfolding recover_expired
    recover_expired-settled (naive t) = found
    recover_expired-settled (aware t) = ground (
      arith,
      found,
      recover_rows-other (order_rows (select_where (needs_recovery t) db.jobs)) db i r t found
          (rows-other t (ground arith)),
    )

    claim_job-settled :
        (w a t : ℕ) (job : Job)
        → find_job job.id db.jobs ≡ some job
        → is_ready t job ≡ true
        → find_job i (claim_job w a t (some job) db).1.jobs ≡ some r
    unfolding claim_job
    claim_job-settled w a t job at_job ready =
        let off =
          passed_over db i r found (has_id job.id) (to_running w t) (λ x. refl)
            (ground (
              arith,
              find_job-has_id i db.jobs found,
              ap (λ (k : ℕ). find_job k db.jobs) {x = job.id} {y = i},
            )) in
        ground (arith, off)

    claim-settled : (w a : ℕ) (at : Datetime) → find_job i (claim w a at db).1.jobs ≡ some r
    unfolding claim
    claim-settled w a (naive t) = found
    claim-settled w a (aware t) = elim (Option-cases (next_ready t db.jobs)) [
      | inl idle ↦ rw idle found
      | inr (job, hit) ↦ rw hit (
          let ready = next_ready-IsReady db v t hit in
          ground (arith, found, claim_job-settled w a t job ready.0 ready.1))
    ]

-- The statuses that no call leaves: every settled one but FAILED.
abbrev pub is_final : JobStatus → Bool
is_final s = is_settled s && not (is_failed s)

perform-final :
    (c : Call) (db : Db) (v : IsValid db) (i : ℕ) (r : Job)
    → find_job i db.jobs ≡ some r
    → is_final r.status ≡ true
    → HasStatus i r.status (perform c db)
unfolding perform
perform-final (enqueue_call id k p c key n plan now) db v i r found h =
    (r, enqueue-settled db i r found (ground arith) id k p c key n plan now, refl)
perform-final (claim_call w a at) db v i r found h =
    (r, claim-settled db v i r found (ground arith) w a at, refl)
perform-final (heartbeat_call j w a at) db v i r found h =
    (r, heartbeat-settled db i r found (ground arith) j w a at, refl)
perform-final (request_cancel_call j at) db v i r found h =
    (r, request_cancel-settled db i r found (ground arith) j at, refl)
perform-final (retry_failed_call j at) db v i r found h =
    (r, retry_failed-settled db i r found (ground arith) j at (ground arith), refl)
perform-final (acknowledge_cancel_call j w a at) db v i r found h =
    (r, acknowledge_cancel-settled db i r found (ground arith) j w a at, refl)
perform-final (complete_call j artifact w a at) db v i r found h =
    (r, complete-settled db i r found (ground arith) j w a artifact at, refl)
perform-final (fail_call j e w a at) db v i r found h =
    (r, fail-settled db i r found (ground arith) j w a e at, refl)
perform-final (defer_call j at clock) db v i r found h =
    defer-settled db i r found (ground arith) j at clock
perform-final (mark_provider_sent_call j w a q clock) db v i r found h =
    (r, mark_provider_sent-settled db i r found (ground arith) j w a q clock, refl)
perform-final (recover_expired_call at) db v i r found h =
    (r, recover_expired-settled db v i r found (ground arith) at, refl)

-- A job that is SUCCEEDED, CANCELED, BLOCKED_BUDGET or BILLING_UNKNOWN in valid tables still has that
-- status after any sequence of calls, late workers, retries and recovery included.
pub perform_all-final :
    (cs : List Call) (db : Db) (i : ℕ) (s : JobStatus)
    → IsValid db
    → HasStatus i s db
    → is_final s ≡ true
    → HasStatus i s (perform_all cs db)
unfolding perform_all
perform_all-final [] db i s v h f = h
perform_all-final (c ∷ cs) db i s v (r, found, e) f =
    perform_all-final cs (perform c db) i s (perform-IsValid c db v)
      (subst (λ (t : JobStatus). HasStatus i t (perform c db)) e
        (perform-final c db v i r found (rw e f)))
      f
