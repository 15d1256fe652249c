-- ===== src/Jobs/Rows.antt =====
-- The queries and single statements of backend/app/modules/jobs/runner.py, over the tables.
use truyenaudio_studio.Prelude.{
  ℕ, ◌+◌, max, Bool, true, false, Option, none, some, List, [], ◌∷◌, ◌++◌, ◌&&◌, ◌||◌, ltb, leb,
  ◌==◌, if◌then◌else◌, update_where, count_where, find_where, delete_where,
}
use truyenaudio_studio.Jobs.Schema.{
  Job, JobAttempt, JobKind, EventLog, EntityType, job, same_kind, is_open_of,
}
use truyenaudio_studio.Jobs.Tx.{
  Tx, ok, err, integrity_error, no_result_found, gets, or_raise, ◌>>=◌,
}

-- SELECT * FROM jobs WHERE id = :id
abbrev pub has_id : ℕ → Job → Bool
has_id job_id j = j.id == job_id

unfoldable pub find_job : ℕ → List Job → Option Job
find_job job_id jobs = find_where (has_id job_id) jobs

unfoldable pub job_row : ℕ → Tx Job
unfolding find_job
job_row job_id = do found ← gets (λ db. find_job job_id db.jobs); or_raise found no_result_found

-- An UPDATE of a table; the result is its row count.
abbrev pub update_jobs : (Job → Bool) → (Job → Job) → Tx ℕ
update_jobs p f db = (ok (count_where p db.jobs), record db { jobs = update_where p f db.jobs })

abbrev pub update_attempts : (JobAttempt → Bool) → (JobAttempt → JobAttempt) → Tx ℕ
update_attempts p f db =
    (ok (count_where p db.attempts), record db { attempts = update_where p f db.attempts })

-- COALESCE(MAX(attempt_no), 0) over the attempts of a job.
unfoldable pub max_attempt_no : ℕ → List JobAttempt → ℕ
max_attempt_no job_id [] = 0
max_attempt_no job_id (a ∷ rest_of) =
    let rest = max_attempt_no job_id rest_of in
    if a.job_id == job_id then max a.attempt_no rest else rest

-- ORDER BY attempt_no DESC LIMIT 1
abbrev pub later : JobAttempt → Option JobAttempt → JobAttempt
later a none = a
later a (some b) = if ltb a.attempt_no b.attempt_no then b else a

-- The open attempt of a job with the greatest number. Numbers are unique within a job, so it is also
-- the row that the LEFT JOIN of `_require_live_lease` finds.
unfoldable pub current_attempt : ℕ → List JobAttempt → Option JobAttempt
current_attempt job_id [] = none
current_attempt job_id (a ∷ rest_of) =
    let rest = current_attempt job_id rest_of in
    if is_open_of job_id a then some (later a rest) else rest

-- The EXISTS of `heartbeat`: the attempt is open and no open attempt of the job is later.
abbrev pub attempt_is : ℕ → Option JobAttempt → Bool
attempt_is attempt_id none = false
attempt_is attempt_id (some a) = a.id == attempt_id

-- INSERT INTO job_attempts: the primary key and (job_id, attempt_no) are unique.
abbrev pub clashes : JobAttempt → JobAttempt → Bool
clashes a b = b.id == a.id || (b.job_id == a.job_id && b.attempt_no == a.attempt_no)

unfoldable pub insert_attempt : JobAttempt → Tx (Unit {0})
insert_attempt a db =
    let is_free = count_where (clashes a) db.attempts == 0 in
    (
      if is_free then ok tt else err integrity_error,
      record db { attempts = if is_free then db.attempts ++ a ∷ [] else db.attempts },
    )

-- The unique key (project_id, kind, idempotency_key).
abbrev pub has_key : ℕ → JobKind → ℕ → Job → Bool
has_key project_id kind key j =
    j.project_id == project_id && (same_kind j.kind kind && j.idempotency_key == key)

-- Two rows that share the primary key or the unique key.
abbrev pub conflicts : Job → Job → Bool
conflicts a b = b.id == a.id || has_key a.project_id a.kind a.idempotency_key b

-- INSERT OR IGNORE INTO jobs; the row count says whether the row went in.
unfoldable pub insert_job_or_ignore : Job → Tx ℕ
insert_job_or_ignore r db =
    let is_free = count_where (conflicts r) db.jobs == 0 in
    (
      ok (if is_free then 1 else 0),
      record db { jobs = if is_free then db.jobs ++ r ∷ [] else db.jobs },
    )

-- ORDER BY priority ASC, id ASC
abbrev pub row_leb : Job → Job → Bool
row_leb a b = ltb a.priority b.priority || (a.priority == b.priority && leb a.id b.id)

unfoldable pub insert_row : Job → List Job → List Job
insert_row r [] = r ∷ []
insert_row r (x ∷ xs) = let rest = insert_row r xs in if row_leb r x then r ∷ x ∷ xs else x ∷ rest

unfoldable pub order_rows : List Job → List Job
unfolding insert_row
order_rows [] = []
order_rows (x ∷ xs) = insert_row x (order_rows xs)

abbrev pub first_row : List Job → Option Job
first_row [] = none
first_row (x ∷ xs) = some x

-- The next value of the autoincrementing key.
unfoldable pub max_sequence_id : List EventLog → ℕ
max_sequence_id [] = 0
max_sequence_id (e ∷ es) = max e.sequence_id (max_sequence_id es)

abbrev is_job_type : EntityType → Bool
is_job_type job = true
is_job_type _ = false

abbrev pub is_event_of : ℕ → EventLog → Bool
is_event_of job_id e = is_job_type e.entity_type && e.entity_id == job_id

abbrev pub new_event : ℕ → ℕ → List EventLog → EventLog
new_event job_id now events = record {
  sequence_id = max_sequence_id events + 1;
  entity_type = job;
  entity_id = job_id;
  created_at = now;
}

-- `_emit_job_event`: a marker is added unless the job has one.
unfoldable pub emit_job_event : ℕ → ℕ → List EventLog → List EventLog
unfolding max_sequence_id
emit_job_event job_id now events =
    if count_where (is_event_of job_id) events == 0
    then events ++ new_event job_id now events ∷ []
    else events

-- MAX(sequence_id) over the markers of one job.
unfoldable pub max_marker : ℕ → List EventLog → ℕ
max_marker job_id [] = 0
max_marker job_id (e ∷ es) =
    let rest = max_marker job_id es in if is_event_of job_id e then max e.sequence_id rest else rest

abbrev pub is_older_marker : ℕ → ℕ → EventLog → Bool
is_older_marker job_id newest e = is_event_of job_id e && ltb e.sequence_id newest

abbrev pub drop_older_markers : ℕ → List EventLog → List EventLog
drop_older_markers job_id events =
    delete_where (is_older_marker job_id (max_marker job_id events)) events

-- `_replace_job_event`: a new marker first, then the older ones of the job are deleted.
unfoldable pub replace_job_event : ℕ → ℕ → List EventLog → List EventLog
unfolding max_sequence_id max_marker
replace_job_event job_id now events =
    drop_older_markers job_id (events ++ new_event job_id now events ∷ [])
