-- ===== src/Jobs/Trace/Complete.antt =====
-- The whole of `recover_expired`: which jobs it releases, and that it leaves the others alone.
use truyenaudio_studio.Prelude.{
  ℕ, ◌+◌, ◌≤◌, ◌≡◌, refl, Bool, true, false, some, List, [], ◌∷◌, arith, Option, none, leb, ◌&&◌,
  ◌||◌, count_ext, if◌then◌else◌, is_some, find_where, count_where, select_where, All, All-map,
}
use truyenaudio_studio.Jobs.Schema.{
  Job, Db, JobStatus, queued, running, cancel_requested, succeeded, failed, canceled,
  blocked_budget, billing_unknown, is_held, is_running, is_cancel_requested,
}
use truyenaudio_studio.Jobs.Tx.{aware, ok}
use truyenaudio_studio.Jobs.Rows.{has_id, find_job, order_rows, insert_row}
use truyenaudio_studio.Jobs.Recovery.{recover_expired, recover_rows, needs_recovery, is_stale}
use truyenaudio_studio.Jobs.Valid.{IsValid}
use truyenaudio_studio.Jobs.Valid.Find.{All-find_job, All-select_where, All-order_rows}
use truyenaudio_studio.Jobs.Trace.Ordered.{InOrder, order_rows-InOrder, count-select_where}
use truyenaudio_studio.Jobs.Trace.Final.{recover_rows-other, rows-other}
use truyenaudio_studio.Jobs.Trace.Recovers.{
  is_released, row_ids, recover_rows-ok, recover_rows-released,
}

count-insert_row :
    (p : Job → Bool) (x : Job) (xs : List Job)
    → count_where p (insert_row x xs) ≡ (if p x then 1 else 0) + count_where p xs
unfolding insert_row count_where
count-insert_row p x [] = refl
count-insert_row p x (y ∷ ys) = ground (arith, count-insert_row p x ys)

-- Ordering loses no row and adds none.
pub count-order_rows :
    (p : Job → Bool) (xs : List Job) → count_where p (order_rows xs) ≡ count_where p xs
unfolding order_rows count_where
count-order_rows p [] = refl
count-order_rows p (x ∷ xs) =
    ground (arith, count-insert_row p x (order_rows xs), count-order_rows p xs)

count-selected :
    (i : ℕ) (p : Job → Bool) (xs : List Job) {r : Job}
    → find_job i xs ≡ some r
    → p r ≡ true
    → 1 ≤ count_where (has_id i) (select_where p xs)
unfolding find_job find_where count_where select_where
count-selected i p [] h e = cc
count-selected i p (x ∷ xs) {r} h e = ground (arith, count-selected i p xs {r = r})

-- The rows that the loop goes through.
abbrev pub all_expired : Db → ℕ → List Job
all_expired db t = order_rows (select_where (needs_recovery t) db.jobs)

-- A lease that ended at least 90 seconds, in microseconds, before the instant.
abbrev pub ended_90_seconds_before : ℕ → Option ℕ → Bool
ended_90_seconds_before t none = false
ended_90_seconds_before t (some e) = leb (e + 90000000) t

-- The job is RUNNING or CANCEL_REQUESTED, and its worker has been silent for too long.
abbrev pub is_abandoned : ℕ → Job → Bool
is_abandoned t j =
    (is_running j.status || is_cancel_requested j.status)
    && ended_90_seconds_before t j.lease_expires_at

held_lem : (s : JobStatus) → is_held s ≡ (is_running s || is_cancel_requested s)
held_lem queued = refl
held_lem running = refl
held_lem cancel_requested = refl
held_lem succeeded = refl
held_lem failed = refl
held_lem canceled = refl
held_lem blocked_budget = refl
held_lem billing_unknown = refl

stale_lem : (t : ℕ) (o : Option ℕ) → is_stale t o ≡ ended_90_seconds_before t o
stale_lem t none = refl
stale_lem t (some e) = refl

needs_recovery-is_abandoned : (t : ℕ) (j : Job) → needs_recovery t j ≡ is_abandoned t j
needs_recovery-is_abandoned t j = ground (arith, held_lem j.status, stale_lem t j.lease_expires_at)

module _ (db : Db) (v : IsValid db) (t : ℕ) where
  abbrev expired_rows : List Job
  expired_rows = all_expired db t

  expired_exist : All (λ row. is_some (find_job row.id db.jobs) ≡ true) expired_rows
  expired_exist =
      All-map (λ row. (find_job row.id db.jobs ≡ some row) × (needs_recovery t row ≡ true))
        (λ row. is_some (find_job row.id db.jobs) ≡ true) expired_rows (λ row h. rw h.0)
        (All-order_rows _ _ (
          All-select_where (λ row. find_job row.id db.jobs ≡ some row) (needs_recovery t) db.jobs
            (All-find_job db.jobs v.jobs_distinct)))

  recover_expired-ids : (recover_expired (aware t) db).0 ≡ ok (row_ids expired_rows)
  unfolding recover_expired
  recover_expired-ids = ground (arith, recover_rows-ok expired_rows db t expired_exist)

  -- On valid tables `recover_expired` returns the identifiers of a list of rows that has each row of the jobs
  -- table that is held and whose lease ended at least 90 seconds ago as often as the table, and no other row,
  -- in ascending order of priority and, within a priority, of identifier.
  pub recover_expired-ok :
      (rows : List Job) × ((recover_expired (aware t) db).0 ≡ ok (row_ids rows))
      × ((p : Job → Bool) → count_where p rows ≡ count_where (λ j. is_abandoned t j && p j) db.jobs)
      × InOrder rows
  recover_expired-ok = (
    expired_rows,
    recover_expired-ids,
    (λ p. ground (
      arith,
      count-order_rows p (select_where (needs_recovery t) db.jobs),
      count-select_where p (needs_recovery t) db.jobs,
      count_ext (λ j. needs_recovery t j && p j) (λ j. is_abandoned t j && p j) db.jobs
          (λ j. ground (arith, needs_recovery-is_abandoned t j)),
    )),
    order_rows-InOrder (select_where (needs_recovery t) db.jobs),
  )

  recover_expired-rows : (recover_expired (aware t) db).1 ≡ (recover_rows t expired_rows db).1
  unfolding recover_expired
  recover_expired-rows = ground (arith, recover_rows-ok expired_rows db t expired_exist)

  -- On valid tables, no worker holds a job after `recover_expired` whose lease had ended at least 90
  -- seconds before.
  pub recover_expired-releases :
      (i : ℕ) (r : Job)
      → find_job i db.jobs ≡ some r
      → needs_recovery t r ≡ true
      → is_released i (recover_expired (aware t) db).1 ≡ true
  recover_expired-releases i r found expired = rw recover_expired-rows (
      recover_rows-released expired_rows db i t r expired_exist found (
        ground (
          arith,
          count-order_rows (has_id i) (select_where (needs_recovery t) db.jobs),
          count-selected i (needs_recovery t) db.jobs found expired,
        )))

  -- On valid tables, `recover_expired` leaves the row of any other job as it was.
  pub recover_expired-keeps :
      (i : ℕ) (r : Job)
      → find_job i db.jobs ≡ some r
      → needs_recovery t r ≡ false
      → find_job i (recover_expired (aware t) db).1.jobs ≡ some r
  recover_expired-keeps i r found calm =
      rw recover_expired-rows
        (recover_rows-other expired_rows db i r t found (rows-other db v i r found t calm))
