-- ===== src/Jobs/Valid.antt =====
-- The invariant of the queue's tables.
pub mod Counts
pub mod Find
pub mod Writes
pub mod Inserts
pub mod Methods
pub mod Requests
pub mod Recovered
use truyenaudio_studio.Prelude.{
  ℕ, ◌≤◌, ◌≡◌, Bool, true, false, Option, none, List, ◌==◌, ◌&&◌, ◌||◌, is_some, count_where, All,
  Distinct,
}
use truyenaudio_studio.Jobs.Schema.{Job, JobAttempt, Db, is_held, is_open_of, same_kind}
use truyenaudio_studio.Jobs.Rows.{has_id, conflicts, clashes}

-- The attempts of a job that have not finished.
abbrev pub open_count : ℕ → List JobAttempt → ℕ
open_count job_id attempts = count_where (is_open_of job_id) attempts

-- A held job has an owner, a lease and exactly one open attempt; any other job has none of these.
pub record IsLeased (j : Job) (n : ℕ) : Type 0 where
  pub held :
      is_held j.status ≡ true
      → (n ≡ 1) × (is_some j.lease_owner ≡ true) × (is_some j.lease_expires_at ≡ true)
  pub free :
      is_held j.status ≡ false → (n ≡ 0) × (j.lease_owner ≡ none) × (j.lease_expires_at ≡ none)

abbrev pub LeasedIn : List JobAttempt → Job → Type 0
LeasedIn attempts j = IsLeased j (open_count j.id attempts)

-- The job of an attempt exists, as the foreign key demands.
abbrev pub IsKnownIn : List Job → JobAttempt → Type 0
IsKnownIn jobs a = 1 ≤ count_where (has_id a.job_id) jobs

pub record IsValid (db : Db) : Type 0 where
  pub leases : All (LeasedIn db.attempts) db.jobs
  pub jobs_distinct : Distinct conflicts db.jobs
  pub attempts_distinct : Distinct clashes db.attempts
  pub attempts_known : All (IsKnownIn db.jobs) db.attempts
