-- ===== src/Jobs/Valid/Requests.antt =====
-- The methods that end no attempt keep the invariant, whether they return or raise.
use truyenaudio_studio.Prelude.{
  ℕ, ◌+◌, ◌≡◌, refl, inl, inr, true, false, Option, none, some, [], ◌∷◌, ◌++◌, arith, ◌==◌,
  Bool-cases, ==_iff, Option-cases, count_where, String, ◌&&◌, not,
}
use truyenaudio_studio.Jobs.Schema.{Job, JobKind, Db, is_failed, is_held}
use truyenaudio_studio.Jobs.Tx.{aware, naive, Datetime, begin}
use truyenaudio_studio.Jobs.Rows.{
  conflicts, has_id, replace_job_event, find_job, current_attempt, attempt_is, insert_job_or_ignore,
  max_attempt_no, clashes,
}
use truyenaudio_studio.Jobs.Leases.{is_open_attempt}
use truyenaudio_studio.Jobs.Runner.{
  enqueue, new_job, write_plan, claim, claim_job, next_ready, is_ready, to_running, new_attempt,
  heartbeat, can_beat, extend_lease, request_cancel, is_live, to_cancel, retry_failed, to_retried,
  defer, mark_provider_sent, is_holder,
}
use truyenaudio_studio.Jobs.Valid.{IsValid}
use truyenaudio_studio.Jobs.Valid.Find.{
  All-find_job, All-select_where, All-order_rows, All-first_row,
}
use truyenaudio_studio.Jobs.Valid.Inserts.{
  touch-IsValid, touch_jobs-IsValid, touch_attempts-IsValid, claim-IsValid, insert-IsValid,
}

module _ (db : Db) (v : IsValid db) (job_id : ℕ) where
  pub request_cancel-IsValid : (at : Datetime) → IsValid (request_cancel job_id at db).1
  unfolding request_cancel
  request_cancel-IsValid (naive t) = v
  request_cancel-IsValid (aware t) =
      let after =
        touch_jobs-IsValid db v (λ j. has_id job_id j && is_live j.status) (to_cancel t)
          (λ x. ground arith) (λ x n h l. ground arith) in
      ground (arith, v, after (replace_job_event job_id t db.events), after db.events)

  pub retry_failed-IsValid : (at : Datetime) → IsValid (retry_failed job_id at db).1
  unfolding retry_failed
  retry_failed-IsValid (naive t) = v
  retry_failed-IsValid (aware t) =
      let after =
        touch_jobs-IsValid db v (λ j. has_id job_id j && is_failed j.status) (to_retried t)
          (λ x. ground arith) (λ x n h l. ground arith) in
      ground (arith, v, after (replace_job_event job_id t db.events), after db.events)

  pub defer-IsValid : (at : Datetime) (clock : ℕ) → IsValid (defer job_id at clock db).1
  unfolding defer
  defer-IsValid (naive t) clock = v
  defer-IsValid (aware t) clock = ground (
    arith,
    v,
    touch_jobs-IsValid db v (has_id job_id)
        (λ j. record j { next_run_at = some t; updated_at = clock }) (λ x. ground arith)
        (λ x n h l. ground arith) db.events,
  )

  module _ (worker_id attempt_id : ℕ) where
    pub heartbeat-IsValid :
        (at : Datetime) → IsValid (heartbeat job_id worker_id attempt_id at db).1
    unfolding heartbeat
    heartbeat-IsValid (naive t) = v
    heartbeat-IsValid (aware t) =
        let current = attempt_is attempt_id (current_attempt job_id db.attempts) in
        ground (
          arith,
          touch_jobs-IsValid db v (can_beat job_id worker_id t current) (extend_lease t)
              (λ x. ground arith) (λ x n h l. ground arith) db.events,
          touch-IsValid db v (is_open_attempt job_id attempt_id)
              (λ a. record a { heartbeat_at = some t; updated_at = t }) (λ x. ground arith)
              (λ k x. refl) (can_beat job_id worker_id t current) (extend_lease t)
              (λ x. ground arith) (λ x n h l. ground arith) db.events,
        )

    pub mark_provider_sent-IsValid :
        (request_id clock : ℕ)
        → IsValid (mark_provider_sent job_id worker_id attempt_id request_id clock db).1
    unfolding mark_provider_sent
    mark_provider_sent-IsValid request_id clock = ground (
      arith,
      v,
      touch_attempts-IsValid db v
          (λ a.
            is_open_attempt job_id attempt_id a
            && not (count_where (is_holder job_id worker_id) db.jobs == 0))
          (λ a. record a { provider_request_id = some request_id; updated_at = clock })
          (λ x. ground arith) (λ k x. refl),
    )

module _ (db : Db) (v : IsValid db) where
  -- The job that `claim` takes is a row of the table, it is queued, and it is due.
  pub next_ready-IsReady :
      (now : ℕ) {r : Job}
      → next_ready now db.jobs ≡ some r
      → (find_job r.id db.jobs ≡ some r) × (is_ready now r ≡ true)
  unfolding next_ready
  next_ready-IsReady now h =
      All-first_row _ _
        (All-order_rows _ _ (
          All-select_where (λ r. find_job r.id db.jobs ≡ some r) (is_ready now) db.jobs
            (All-find_job db.jobs v.jobs_distinct)))
        h

  claim_job-IsValid :
      (worker_id attempt_id now : ℕ) (r : Job)
      → find_job r.id db.jobs ≡ some r
      → is_ready now r ≡ true
      → IsValid (begin (claim_job worker_id attempt_id now (some r)) db).1
  unfolding claim_job
  claim_job-IsValid worker_id attempt_id now r found ready =
      let a = new_attempt attempt_id r.id (max_attempt_no r.id db.attempts + 1) now in
      ground (
        arith,
        v,
        λ (fresh : count_where (clashes a) db.attempts ≡ 0).
            claim-IsValid db v r found (ground arith) (to_running worker_id now) (λ x. ground arith)
              (λ x. ground arith) a refl refl fresh,
      )

  pub claim-IsValid_lem :
      (worker_id attempt_id : ℕ) (at : Datetime) → IsValid (claim worker_id attempt_id at db).1
  unfolding claim
  claim-IsValid_lem worker_id attempt_id (naive t) = v
  claim-IsValid_lem worker_id attempt_id (aware t) = elim (Option-cases (next_ready t db.jobs)) [
    | inl idle ↦ rw idle v
    | inr (r, found) ↦ rw found (
        let ready = next_ready-IsReady t found in
        claim_job-IsValid worker_id attempt_id t r ready.0 ready.1)
  ]

  enqueued :
      (r : Job) (plan : Option String) (job_id now : ℕ)
      → is_held r.status ≡ false
      → r.lease_owner ≡ none
      → r.lease_expires_at ≡ none
      → IsValid (insert_job_or_ignore r db).1
  unfolding insert_job_or_ignore
  enqueued r plan job_id now h o l = elim (Bool-cases (count_where (conflicts r) db.jobs == 0)) [
    | inl fresh ↦ rw fresh (insert-IsValid db v r ((==_iff _ 0).0 fresh) h o l)
    | inr clash ↦ rw clash v
  ]

pub write_plan-IsValid :
    (db : Db) (v : IsValid db) (plan : Option String) (n job_id now : ℕ)
    → IsValid (write_plan plan n job_id now db).1
unfolding write_plan
write_plan-IsValid db v none n job_id now = v
write_plan-IsValid db v (some plan) n job_id now = ground (
  arith,
  v,
  touch_jobs-IsValid db v (has_id job_id)
      (λ j. record j { plan_json = some plan; updated_at = now }) (λ x. ground arith)
      (λ x n h l. ground arith) db.events,
)

pub enqueue-IsValid :
    (job_id : ℕ) (kind : JobKind) (project_id : ℕ) (chapter_id : Option ℕ) (key priority : ℕ)
    → (plan : Option String) (now : ℕ) (db : Db) → IsValid db
    → IsValid (enqueue job_id kind project_id chapter_id key priority plan now db).1
unfolding enqueue insert_job_or_ignore
enqueue-IsValid job_id kind project_id chapter_id key priority plan now db v =
    let r = new_job job_id kind project_id chapter_id key priority now in
    ground (
      arith,
      v,
      write_plan-IsValid db v plan 0 job_id now,
      λ (fresh : count_where (conflicts r) db.jobs ≡ 0).
          write_plan-IsValid (record db { jobs = db.jobs ++ r ∷ [] })
            (insert-IsValid db v r fresh refl refl refl) plan 1 job_id now,
    )
