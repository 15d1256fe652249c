-- ===== src/Jobs/Schema.antt =====
-- The tables of the queue (backend/app/db/models.py) and the enumerations of
-- backend/app/contracts.py that it uses. Identifiers, worker names and keys are only compared, so
-- a number stands for each; an instant is a number of microseconds.
use truyenaudio_studio.Prelude.{ℕ, ◌*◌, String, Bool, true, false, Option, List, [], ◌==◌, is_none}

pub data JobKind : Type 0 where
  import translate review repair_translation preview_tts synthesize master audio_qa : JobKind
  export summarize : JobKind

pub data JobStatus : Type 0 where
  queued running cancel_requested succeeded failed canceled blocked_budget : JobStatus
  billing_unknown : JobStatus

abbrev pub kind_code : JobKind → ℕ
kind_code import = 0
kind_code translate = 1
kind_code review = 2
kind_code repair_translation = 3
kind_code preview_tts = 4
kind_code synthesize = 5
kind_code master = 6
kind_code audio_qa = 7
kind_code export = 8
kind_code summarize = 9

abbrev pub same_kind : JobKind → JobKind → Bool
same_kind a b = kind_code a == kind_code b

-- `outcome` of an attempt.
pub data Outcome : Type 0 where
  canceled succeeded billing_unknown retry failed expired_retry : Outcome

-- The plan is carried as the JSON text that `_dump_plan` writes.
pub record Job : Type 0 where
  pub id : ℕ
  pub kind : JobKind
  pub status : JobStatus
  pub project_id : ℕ
  pub chapter_id : Option ℕ
  pub plan_json : Option String
  pub idempotency_key : ℕ
  pub priority : ℕ
  pub progress_current : ℕ
  pub progress_total : ℕ
  pub cancel_requested_at : Option ℕ
  pub lease_owner : Option ℕ
  pub lease_expires_at : Option ℕ
  pub next_run_at : Option ℕ
  pub result_artifact_id : Option ℕ
  pub error_code : Option String
  pub error_summary : Option String
  pub created_at : ℕ
  pub updated_at : ℕ

-- The columns that the queue writes; the others of the table stay null here.
pub record JobAttempt : Type 0 where
  pub id : ℕ
  pub job_id : ℕ
  pub attempt_no : ℕ
  pub started_at : ℕ
  pub heartbeat_at : Option ℕ
  pub finished_at : Option ℕ
  pub outcome : Option Outcome
  pub provider_request_id : Option ℕ
  pub error_class : Option String
  pub redacted_detail : Option String
  pub created_at : ℕ
  pub updated_at : ℕ

pub data EntityType : Type 0 where
  job audit usage : EntityType

pub record EventLog : Type 0 where
  pub sequence_id : ℕ
  pub entity_type : EntityType
  pub entity_id : ℕ
  pub created_at : ℕ

-- The part of the database that the queue reads and writes.
pub record Db : Type 0 where
  pub jobs : List Job
  pub attempts : List JobAttempt
  pub events : List EventLog

abbrev pub empty_db : Db
empty_db = record { jobs = []; attempts = []; events = [] }

-- timedelta(seconds=n)
abbrev pub seconds : ℕ → ℕ
seconds n = n * 1000000

-- status IN (RUNNING, CANCEL_REQUESTED): a worker holds the job.
abbrev pub is_held : JobStatus → Bool
is_held running = true
is_held cancel_requested = true
is_held _ = false

abbrev pub is_running : JobStatus → Bool
is_running running = true
is_running _ = false

abbrev pub is_cancel_requested : JobStatus → Bool
is_cancel_requested cancel_requested = true
is_cancel_requested _ = false

abbrev pub is_queued : JobStatus → Bool
is_queued queued = true
is_queued _ = false

abbrev pub is_failed : JobStatus → Bool
is_failed failed = true
is_failed _ = false

-- finished_at IS NULL, of one job.
abbrev pub is_open_of : ℕ → JobAttempt → Bool
is_open_of job_id a = elim (a.job_id == job_id) [ true ↦ is_none a.finished_at | false ↦ false ]
