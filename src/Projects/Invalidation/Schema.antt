-- ===== src/Projects/Invalidation/Schema.antt =====
-- The rows that a plan reads and writes (backend/app/db/models.py), and the enumerations of backend/app/contracts.py.
-- Of the metadata of an artifact only the key speech_segment_id is kept.
use truyenaudio_studio.Prelude.{ℕ, Bool, true, false, Option, List}

pub data ChangeKind : Type 0 where
  source_revision project_metadata glossary story_memory target_text pronunciation : ChangeKind
  voice_role master_settings rights_evidence : ChangeKind

pub record Change : Type 0 where
  pub kind : ChangeKind
  pub affected_ids : List ℕ

pub record InvalidationPlan : Type 0 where
  pub reused : List ℕ
  pub invalidated : List ℕ
  pub revoked_exports : List ℕ

pub data RunStatus : Type 0 where
  run_pending run_running run_review run_approved run_superseded run_failed : RunStatus

pub data ArtifactKind : Type 0 where
  source_snapshot translation_markdown tts_segment voice_preview master_wav master_mp3 srt :
      ArtifactKind
  report rights_evidence_kind license_snapshot consent_evidence private_archive : ArtifactKind
  publication_bundle : ArtifactKind

pub data ArtifactStatus : Type 0 where
  writing ready corrupt superseded deleted : ArtifactStatus

pub data ExportStatus : Type 0 where
  export_building export_ready export_failed export_revoked : ExportStatus

pub record Chapter : Type 0 where
  pub id : ℕ
  pub project_id : ℕ
  pub ordinal : ℕ
  pub approved_translation_run_id : Option ℕ
  pub translation_approved_at : Option ℕ
  pub active_voice_plan_id : Option ℕ
  pub approved_master_artifact_id : Option ℕ
  pub audio_approved_at : Option ℕ
  pub last_export_id : Option ℕ

pub record SourceRevision : Type 0 where
  pub id : ℕ
  pub chapter_id : ℕ

pub record TranslationRun : Type 0 where
  pub id : ℕ
  pub chapter_id : ℕ
  pub status : RunStatus

pub record SpeechSegment : Type 0 where
  pub id : ℕ
  pub chapter_id : ℕ
  pub voice_plan_id : ℕ
  pub segment_index : ℕ
  pub translation_segment_id : ℕ
  pub role_id : ℕ

pub record Artifact : Type 0 where
  pub id : ℕ
  pub chapter_id : Option ℕ
  pub kind : ArtifactKind
  pub status : ArtifactStatus
  pub speech_segment_id : Option ℕ

pub record Export : Type 0 where
  pub id : ℕ
  pub chapter_id : ℕ
  pub status : ExportStatus
  pub bundle_artifact_id : Option ℕ
  pub revoked_at : Option ℕ

-- The projects and voice plans are their identifiers.
pub record Db : Type 0 where
  pub projects : List ℕ
  pub voice_plans : List ℕ
  pub chapters : List Chapter
  pub source_revisions : List SourceRevision
  pub translation_runs : List TranslationRun
  pub speech_segments : List SpeechSegment
  pub artifacts : List Artifact
  pub exports : List Export

abbrev pub is_ready : ArtifactStatus → Bool
is_ready ready = true
is_ready _ = false

abbrev pub is_export_ready : ExportStatus → Bool
is_export_ready export_ready = true
is_export_ready _ = false

-- status IN (APPROVED, REVIEW)
abbrev pub is_current_run : RunStatus → Bool
is_current_run run_approved = true
is_current_run run_review = true
is_current_run _ = false

abbrev pub is_tts : ArtifactKind → Bool
is_tts tts_segment = true
is_tts _ = false

-- kind IN (MASTER_MP3, SRT)
abbrev pub is_master : ArtifactKind → Bool
is_master master_mp3 = true
is_master srt = true
is_master _ = false
