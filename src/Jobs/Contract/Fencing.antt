-- ===== src/Jobs/Contract/Fencing.antt =====
-- The lease-scoped methods: they succeed exactly for the worker that holds the live lease with the
-- current attempt, and a call that raises leaves the tables as they were.
use truyenaudio_studio.Prelude.{
  ℕ, ◌≡◌, refl, inl, inr, true, false, Option, none, some, List, arith, opt_eq, Option-cases,
  count_where, find_where, coalesce, All-find, count_ext, Distinct, ◌∙◌, update_where,
}
use truyenaudio_studio.Jobs.Schema.{Job, JobAttempt, Outcome, Db, is_running, succeeded}
use truyenaudio_studio.Jobs.Tx.{aware, ok}
use truyenaudio_studio.Jobs.Rows.{has_id, find_job, current_attempt, clashes}
use truyenaudio_studio.Jobs.Leases.{
  check_lease, has_expired, holds_lease, is_open_attempt, to_terminal, close,
}
use truyenaudio_studio.Jobs.Runner.{complete}
use truyenaudio_studio.Jobs.Valid.{IsValid, LeasedIn, open_count}
use truyenaudio_studio.Jobs.Contract.Closing.{has_attempt_id, closed-found, closed-none_open}
use truyenaudio_studio.Jobs.Valid.Counts.{count-current, is_open_row}
use truyenaudio_studio.Jobs.Valid.Find.{found-count, find_job-has_id}
use truyenaudio_studio.Jobs.Trace.Frame.{find_job-update}

-- The worker holds a live lease on the running job, with this attempt as the current one.
pub record HoldsLease (db : Db) (job_id worker_id attempt_id now : ℕ) : Type 0 where
  pub row : Job
  pub attempt : JobAttempt
  pub row_found : find_job job_id db.jobs ≡ some row
  pub is_running_row : is_running row.status ≡ true
  pub owned : opt_eq row.lease_owner (some worker_id) ≡ true
  pub live : has_expired row.lease_expires_at now ≡ false
  pub current : current_attempt job_id db.attempts ≡ some attempt
  pub same_attempt : attempt.id ≡ attempt_id

module _ (job_id worker_id attempt_id now : ℕ) (artifact : Option ℕ) (db : Db) where
  -- `complete` returns a row only if the worker holds a live lease on the running job, and the attempt
  -- that it names is the current one.
  pub complete_needs :
      {row : Job}
      → (complete job_id artifact worker_id attempt_id (aware now) db).0 ≡ ok row
      → HoldsLease db job_id worker_id attempt_id now
  unfolding complete check_lease
  complete_needs h = elim (Option-cases (find_job job_id db.jobs)) [
    | inl missing ↦ absurd (ground (arith, missing, h))
    | inr (r, found) ↦ elim (Option-cases (current_attempt job_id db.attempts)) [
      | inl closed ↦ absurd (ground (arith, found, closed, h))
      | inr (a, current) ↦ record {
        row = r;
        attempt = a;
        row_found = found;
        is_running_row = ground (arith, found, current, h);
        owned = ground (arith, found, current, h);
        live = ground (arith, found, current, h);
        current = current;
        same_attempt = ground (arith, found, current, h);
      }
    ]
  ]

-- The current attempt of a job is one open row of its identifier.
pub current-count :
    (job_id attempt_id : ℕ) (xs : List JobAttempt) {a : JobAttempt}
    → Distinct clashes xs
    → current_attempt job_id xs ≡ some a
    → a.id ≡ attempt_id
    → count_where (is_open_attempt job_id attempt_id) xs ≡ 1
current-count job_id attempt_id xs {a} d h e = ground (
  arith,
  count-current job_id job_id xs d h,
  count_ext (is_open_attempt job_id attempt_id) (is_open_row job_id a.id) xs (λ x. ground arith),
)

-- The row of a job that has succeeded.
abbrev pub succeeded_row : ℕ → Option ℕ → Job → Job
succeeded_row now artifact j = record j {
  status = succeeded;
  lease_owner = none;
  lease_expires_at = none;
  next_run_at = none;
  result_artifact_id = coalesce artifact j.result_artifact_id;
  error_code = none;
  error_summary = none;
  updated_at = now;
}

-- The row of an attempt that has succeeded.
abbrev pub succeeded_attempt : ℕ → JobAttempt → JobAttempt
succeeded_attempt now a = record a {
  finished_at = some now;
  heartbeat_at = coalesce a.heartbeat_at (some now);
  outcome = some Outcome.succeeded;
  error_class = none;
  redacted_detail = none;
  updated_at = now;
}

module _ (job_id worker_id attempt_id now : ℕ) (artifact : Option ℕ) (db : Db) (v : IsValid db)
    (h : HoldsLease db job_id worker_id attempt_id now) where
  one_held : count_where (holds_lease is_running job_id worker_id now) db.jobs ≡ 1
  one_held =
      found-count job_id _ db.jobs v.jobs_distinct h.row_found
        (ground (arith, h.is_running_row, h.owned, h.live))

  written_row :
      find_job job_id (
        update_where
          (holds_lease is_running job_id worker_id now)
          (to_terminal succeeded now artifact none none)
          db.jobs)
      ≡ some (succeeded_row now artifact h.row)
  written_row =
      find_job-update job_id (holds_lease is_running job_id worker_id now)
        (to_terminal succeeded now artifact none none) db.jobs (λ x. refl) h.row_found
      ∙ ground
          (arith, h.is_running_row, h.owned, h.live, find_job-has_id job_id db.jobs h.row_found)

  one_open : open_count job_id db.attempts ≡ 1
  one_open = ground (
    arith,
    h.is_running_row,
    find_job-has_id job_id db.jobs h.row_found,
    (All-find (LeasedIn db.attempts) (has_id job_id) db.jobs {x = h.row} v.leases
          (unfold find_job in h.row_found)).held
        (ground (arith, h.is_running_row)),
  )

  one_closed : count_where (is_open_attempt job_id attempt_id) db.attempts ≡ 1
  one_closed =
      current-count job_id attempt_id db.attempts v.attempts_distinct h.current h.same_attempt

  abbrev closed_attempts : List JobAttempt
  closed_attempts =
      update_where (is_open_attempt job_id attempt_id) (close now Outcome.succeeded none none)
        db.attempts

  complete_done :
      let out = complete job_id artifact worker_id attempt_id (aware now) db in
      (out.0 ≡ ok (succeeded_row now artifact h.row))
      × (find_job job_id out.1.jobs ≡ some (succeeded_row now artifact h.row))
      × (out.1.attempts ≡ closed_attempts)
  unfolding complete check_lease
  complete_done = ground (
    arith, h.row_found, h.is_running_row, h.owned, h.live, h.current, h.same_attempt, one_held,
    written_row, one_closed,
  )

-- On valid tables, `complete` by the worker that holds a live lease on the running job with the current
-- attempt returns the row, which is SUCCEEDED with no owner, no lease, no next run, no error and the given
-- artifact, if any. The jobs table has that row; the attempt has finished now as succeeded; and no attempt
-- of the job is open.
pub complete_succeeds :
    (job_id worker_id attempt_id now : ℕ) (artifact : Option ℕ) (db : Db)
    → IsValid db
    → (h : HoldsLease db job_id worker_id attempt_id now)
    → let out = complete job_id artifact worker_id attempt_id (aware now) db in
      (out.0 ≡ ok (succeeded_row now artifact h.row))
      × (find_job job_id out.1.jobs ≡ some (succeeded_row now artifact h.row))
      × (find_where (has_attempt_id attempt_id) out.1.attempts
          ≡ some (succeeded_attempt now h.attempt))
      × (open_count job_id out.1.attempts ≡ 0)
complete_succeeds job_id worker_id attempt_id now artifact db v h =
    let (returned, stored, attempts) =
      complete_done job_id worker_id attempt_id now artifact db v h in
    (
      returned,
      stored,
      rw attempts (
          closed-found job_id attempt_id now Outcome.succeeded none none db.attempts
            v.attempts_distinct h.current h.same_attempt),
      rw attempts (
          closed-none_open job_id attempt_id now Outcome.succeeded none none db.attempts
            v.attempts_distinct h.current h.same_attempt
            (one_open job_id worker_id attempt_id now artifact db v h)
            (one_closed job_id worker_id attempt_id now artifact db v h)),
    )
