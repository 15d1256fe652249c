-- ===== src/Jobs/Trace/Settled.antt =====
-- A settled job keeps its status: SUCCEEDED, CANCELED, BLOCKED_BUDGET and BILLING_UNKNOWN are final,
-- and FAILED is left by a manual retry alone.
use truyenaudio_studio.Prelude.{
  ℕ, ◌+◌, ◌≡◌, refl, ◌∙◌, ap, inl, inr, Bool, true, false, not, ◌&&◌, Option, none, some, [], ◌∷◌,
  ◌++◌, arith, if◌then◌else◌, Option-cases, update_where, count_where, count_le, String,
}
use truyenaudio_studio.Jobs.Schema.{
  Job, JobKind, JobStatus, Db, JobAttempt, is_failed, is_running, is_cancel_requested, succeeded,
  failed, billing_unknown, seconds,
}
use truyenaudio_studio.Jobs.Tx.{Datetime, aware, naive}
use truyenaudio_studio.Jobs.Rows.{
  has_id, find_job, conflicts, insert_job_or_ignore, attempt_is, current_attempt,
}
use truyenaudio_studio.Jobs.Leases.{
  ErrorRecord, check_lease, holds_lease, to_terminal, to_queued, to_canceled, require_live_lease,
}
use truyenaudio_studio.Jobs.Runner.{
  enqueue, new_job, write_plan, heartbeat, can_beat, extend_lease, request_cancel, is_live,
  to_cancel, retry_failed, to_retried, acknowledge_cancel, complete, defer, mark_provider_sent,
}
use truyenaudio_studio.Jobs.Failure.{fail_job, fail_attempt, delay_or_zero}
use truyenaudio_studio.Jobs.Retry.{classify_retry}
use truyenaudio_studio.Jobs.Valid.Find.{find_job-count, find_job-has_id}
use truyenaudio_studio.Jobs.Trace.Frame.{find_job-update, find_job-append}

-- Neither queued nor held by a worker.
abbrev pub is_settled : JobStatus → Bool
is_settled s = not (is_live s)

-- The job has a row, of the given status.
abbrev pub HasStatus : ℕ → JobStatus → Db → Type 0
HasStatus i s db = (r : Job) × (find_job i db.jobs ≡ some r) × (r.status ≡ s)

module _ (db : Db) (i : ℕ) (r : Job) (found : find_job i db.jobs ≡ some r) where
  -- A write that passes the row over.
  pub passed_over :
      (q : Job → Bool) (g : Job → Job)
      → ((x : Job) → (g x).id ≡ x.id)
      → q r ≡ false
      → find_job i (update_where q g db.jobs) ≡ some r
  passed_over q g same off = find_job-update i q g db.jobs same found ∙ rw off

  module _ (settled : is_settled r.status ≡ true) where
    pub complete-settled :
        (j w a : ℕ) (artifact : Option ℕ) (at : Datetime)
        → find_job i (complete j artifact w a at db).1.jobs ≡ some r
    unfolding complete check_lease
    complete-settled j w a artifact (naive t) = found
    complete-settled j w a artifact (aware t) = ground (
      arith,
      found,
      passed_over (holds_lease is_running j w t) (to_terminal succeeded t artifact none none)
          (λ x. refl) (ground arith),
    )

    pub acknowledge_cancel-settled :
        (j w a : ℕ) (at : Datetime) → find_job i (acknowledge_cancel j w a at db).1.jobs ≡ some r
    unfolding acknowledge_cancel check_lease
    acknowledge_cancel-settled j w a (naive t) = found
    acknowledge_cancel-settled j w a (aware t) = ground (
      arith,
      found,
      passed_over (holds_lease is_cancel_requested j w t) (to_canceled t) (λ x. refl)
          (ground arith),
    )

    pub heartbeat-settled :
        (j w a : ℕ) (at : Datetime) → find_job i (heartbeat j w a at db).1.jobs ≡ some r
    unfolding heartbeat
    heartbeat-settled j w a (naive t) = found
    heartbeat-settled j w a (aware t) = ground (
      arith,
      found,
      passed_over (can_beat j w t (attempt_is a (current_attempt j db.attempts))) (extend_lease t)
          (λ x. refl) (ground arith),
    )

    pub request_cancel-settled :
        (j : ℕ) (at : Datetime) → find_job i (request_cancel j at db).1.jobs ≡ some r
    unfolding request_cancel
    request_cancel-settled j (naive t) = found
    request_cancel-settled j (aware t) = ground (
      arith,
      found,
      passed_over (λ x. has_id j x && is_live x.status) (to_cancel t) (λ x. refl) (ground arith),
    )

    pub retry_failed-settled :
        (j : ℕ) (at : Datetime)
        → is_failed r.status ≡ false
        → find_job i (retry_failed j at db).1.jobs ≡ some r
    unfolding retry_failed
    retry_failed-settled j (naive t) h = found
    retry_failed-settled j (aware t) h = ground (
      arith,
      found,
      passed_over (λ x. has_id j x && is_failed x.status) (to_retried t) (λ x. refl) (ground arith),
    )

    pub defer-settled :
        (j : ℕ) (at : Datetime) (clock : ℕ) → HasStatus i r.status (defer j at clock db).1
    unfolding defer
    defer-settled j (naive t) clock = (r, found, refl)
    defer-settled j (aware t) clock =
        let g = λ (x : Job). record x { next_run_at = some t; updated_at = clock } in
        elim (Option-cases (find_job j (update_where (has_id j) g db.jobs))) [
          | inl missing ↦ (r, ground (arith, found, missing), refl)
          | inr (row, hit) ↦ (
            (if has_id j r then g r else r),
            ground (arith, hit, find_job-update i (has_id j) g db.jobs (λ x. refl) found),
            ground arith,
          )
        ]

    pub mark_provider_sent-settled :
        (j w a request_id clock : ℕ)
        → find_job i (mark_provider_sent j w a request_id clock db).1.jobs ≡ some r
    unfolding mark_provider_sent
    mark_provider_sent-settled j w a request_id clock = ground (arith, found)

    pub enqueue-settled :
        (id : ℕ) (kind : JobKind) (p : ℕ) (c : Option ℕ) (key n : ℕ) (plan : Option String)
        (now : ℕ)
        → find_job i (enqueue id kind p c key n plan now db).1.jobs ≡ some r
    unfolding enqueue insert_job_or_ignore write_plan
    enqueue-settled id kind p c key n none now =
        let new = new_job id kind p c key n now in
        ground (arith, found, find_job-append i db.jobs new found)
    enqueue-settled id kind p c key n (some plan) now =
        let new = new_job id kind p c key n now in
        let g = λ (x : Job). record x { plan_json = some plan; updated_at = now } in
        ground (
          arith,
          found,
          find_job-has_id i db.jobs found,
          find_job-count i db.jobs found,
          count_le (has_id id) (conflicts new) db.jobs (λ x h. ground arith),
          ap (λ (k : ℕ). count_where (has_id k) db.jobs) {x = i} {y = id},
          find_job-update i (has_id id) g (db.jobs ++ new ∷ []) (λ x. refl)
              (find_job-append i db.jobs new found),
        )

    fail_attempt-settled :
        (j w a t : ℕ) (e : ErrorRecord) (attempt : JobAttempt)
        → find_job i (fail_attempt j e w a t attempt db).1.jobs ≡ some r
    unfolding fail_attempt
    fail_attempt-settled j w a t e attempt =
        let over = λ (g : Job → Job) (same : (x : Job) → (g x).id ≡ x.id).
          passed_over (holds_lease is_running j w t) g same (ground arith) in
        let d = (classify_retry e.code attempt.attempt_no e.retry_after_seconds).delay_seconds in
        ground (
          arith,
          found,
          over (to_terminal billing_unknown t none (some "BILLING_UNKNOWN") (some e.summary))
              (λ x. refl),
          over (to_terminal failed t none (some e.code) (some e.summary)) (λ x. refl),
          over (to_queued t (t + seconds (delay_or_zero d)) e) (λ x. refl),
        )

    pub fail-settled :
        (j w a : ℕ) (e : ErrorRecord) (at : Datetime)
        → find_job i (fail_job j e w a at db).1.jobs ≡ some r
    unfolding fail_job check_lease require_live_lease
    fail-settled j w a e (naive t) = found
    fail-settled j w a e (aware t) = elim (Option-cases (current_attempt j db.attempts)) [
      | inl closed ↦ ground (arith, found)
      | inr (attempt, current) ↦ ground (arith, found, fail_attempt-settled j w a t e attempt)
    ]
