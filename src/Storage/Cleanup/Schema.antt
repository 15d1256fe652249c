-- ===== src/Storage/Cleanup/Schema.antt =====
-- The rows and files of CleanupService, its candidates and results, and its constants (backend/app/modules/storage/cleanup.py).
-- Times are in microseconds.
use truyenaudio_studio.Prelude.{ℕ, ◌*◌, Bool, true, false, Option, List, String, ◌==◌}
use truyenaudio_studio.Projects.Invalidation.Schema.{
  ArtifactKind, source_snapshot, translation_markdown, tts_segment, voice_preview, master_wav,
  master_mp3, rights_evidence_kind, license_snapshot, consent_evidence, private_archive,
  publication_bundle, ArtifactStatus, superseded, deleted,
}
use truyenaudio_studio.Storage.Store.{File}

pub data CandidateType : Type 0 where
  superseded_cache unapproved_preview wav_with_approved_mp3 partial diagnostic_log : CandidateType

pub record CleanupCandidate : Type 0 where
  pub candidate_type : CandidateType
  pub relative_path : String
  pub byte_size : ℕ
  pub sha256 : ℕ
  pub artifact_id : Option ℕ

pub record CleanupPlan : Type 0 where
  pub plan_id : ℕ
  pub snapshot_hash : ℕ
  pub candidates : List CleanupCandidate
  pub total_bytes : ℕ

pub record CleanupResult : Type 0 where
  pub plan_id : ℕ
  pub deleted_count : ℕ
  pub skipped_count : ℕ
  pub freed_bytes : ℕ
  pub deleted_paths : List String
  pub skipped_paths : List String

pub record StoredFile : Type 0 where
  pub id : ℕ
  pub chapter_id : Option ℕ
  pub kind : ArtifactKind
  pub status : ArtifactStatus
  pub relative_path : String
  pub sha256 : ℕ
  pub created_at : ℕ
  pub updated_at : ℕ

pub record ChapterMaster : Type 0 where
  pub id : ℕ
  pub approved_master_artifact_id : Option ℕ

-- The details of an event are the candidate's type and path, and the size.
pub record AuditEvent : Type 0 where
  pub artifact_id : Option ℕ
  pub before_hash : ℕ
  pub candidate_type : CandidateType
  pub relative_path : String
  pub byte_size : ℕ
  pub created_at : ℕ

pub record Store : Type 0 where
  pub files : List File
  pub artifacts : List StoredFile
  pub chapters : List ChapterMaster
  pub audit_events : List AuditEvent
  pub plans : List CleanupPlan

pub record Progress : Type 0 where
  pub deleted_paths : List String
  pub skipped_paths : List String
  pub freed_bytes : ℕ

pub data Outcome : Type 0 where
  stale raised : Outcome
  returned : CleanupResult → Outcome

abbrev pub partial_age : ℕ
partial_age = 24 * 3600 * 1000000

abbrev pub wav_age : ℕ
wav_age = 7 * 24 * 3600 * 1000000

abbrev pub diagnostic_log_retention : ℕ
diagnostic_log_retention = 30 * 24 * 3600 * 1000000

-- PROTECTED_KINDS
abbrev pub is_protected_kind : ArtifactKind → Bool
is_protected_kind source_snapshot = true
is_protected_kind translation_markdown = true
is_protected_kind rights_evidence_kind = true
is_protected_kind license_snapshot = true
is_protected_kind consent_evidence = true
is_protected_kind publication_bundle = true
is_protected_kind private_archive = true
is_protected_kind _ = false

-- SUPERSEDED_CACHE_KINDS
abbrev pub is_cache_kind : ArtifactKind → Bool
is_cache_kind tts_segment = true
is_cache_kind voice_preview = true
is_cache_kind _ = false

abbrev pub is_superseded : ArtifactStatus → Bool
is_superseded superseded = true
is_superseded _ = false

abbrev pub is_deleted : ArtifactStatus → Bool
is_deleted deleted = true
is_deleted _ = false

abbrev pub is_preview : ArtifactKind → Bool
is_preview voice_preview = true
is_preview _ = false

abbrev pub is_wav : ArtifactKind → Bool
is_wav master_wav = true
is_wav _ = false

abbrev pub is_mp3 : ArtifactKind → Bool
is_mp3 master_mp3 = true
is_mp3 _ = false

-- candidate_type in {"partial", "diagnostic_log"}
abbrev pub is_loose : CandidateType → Bool
is_loose partial = true
is_loose diagnostic_log = true
is_loose _ = false

-- The order of the names of the types.
abbrev pub type_rank : CandidateType → ℕ
type_rank diagnostic_log = 0
type_rank partial = 1
type_rank superseded_cache = 2
type_rank unapproved_preview = 3
type_rank wav_with_approved_mp3 = 4

abbrev pub same_type : CandidateType → CandidateType → Bool
same_type a b = type_rank a == type_rank b
