-- ===== src/Jobs/Runner/Enqueue.antt =====
-- `enqueue`, `get` and `view_job` of backend/app/modules/jobs/runner.py.
use truyenaudio_studio.Prelude.{
  ℕ, String, Option, none, some, ◌==◌, if◌then◌else◌, select_where, List, [], ◌∷◌,
}
use truyenaudio_studio.Jobs.Schema.{Job, JobKind, queued}
use truyenaudio_studio.Jobs.Tx.{Tx, no_result_found, pure, gets, or_raise, begin, ◌>>=◌, ◌>>◌}
use truyenaudio_studio.Jobs.Rows.{
  has_id, has_key, find_job, job_row, update_jobs, insert_job_or_ignore,
}

abbrev pub new_job : ℕ → JobKind → ℕ → Option ℕ → ℕ → ℕ → ℕ → Job
new_job job_id kind project_id chapter_id key priority now = record {
  id = job_id;
  kind = kind;
  status = queued;
  project_id = project_id;
  chapter_id = chapter_id;
  plan_json = none;
  idempotency_key = key;
  priority = priority;
  progress_current = 0;
  progress_total = 0;
  cancel_requested_at = none;
  lease_owner = none;
  lease_expires_at = none;
  next_run_at = none;
  result_artifact_id = none;
  error_code = none;
  error_summary = none;
  created_at = now;
  updated_at = now;
}

-- The plan is written only on a row that this call has inserted.
unfoldable pub write_plan : Option String → ℕ → ℕ → ℕ → Tx (Unit {0})
write_plan none n job_id now = pure tt
write_plan (some plan) n job_id now = if n == 0 then pure tt else do
  update_jobs (has_id job_id) (λ j. record j { plan_json = some plan; updated_at = now })
  pure tt

-- `.one()` of a query: exactly one row.
abbrev pub one_row : List Job → Option Job
one_row (x ∷ []) = some x
one_row _ = none

unfoldable pub enqueue : ℕ → JobKind → ℕ → Option ℕ → ℕ → ℕ → Option String → ℕ → Tx Job
unfolding insert_job_or_ignore write_plan
enqueue job_id kind project_id chapter_id key priority plan now = begin (do
  n ← insert_job_or_ignore (new_job job_id kind project_id chapter_id key priority now)
  write_plan plan n job_id now
  rows ← gets (λ db. select_where (has_key project_id kind key) db.jobs)
  or_raise (one_row rows) no_result_found)

unfoldable pub get : ℕ → Tx Job
unfolding job_row
get job_id = job_row job_id

unfoldable pub view_job : ℕ → Tx (Option Job)
view_job job_id = gets (λ db. find_job job_id db.jobs)
