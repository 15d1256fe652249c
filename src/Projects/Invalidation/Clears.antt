-- ===== src/Projects/Invalidation/Clears.antt =====
-- What revoke_exports, invalidate_master_chain and invalidate_translation leave of a chapter.
use truyenaudio_studio.Prelude.{
  ℕ, ◌≡◌, refl, ap, Bool, false, ◌||◌, ◌==◌, Bool-cases, inl, inr, arith, All, All-map, is_some,
}
use truyenaudio_studio.Prelude.Rows.Pairs.{Off, Off-later}
use truyenaudio_studio.Projects.Invalidation.Schema.{
  Chapter, TranslationRun, SpeechSegment, Artifact, Export, Db, is_ready, is_export_ready,
  is_current_run,
}
use truyenaudio_studio.Projects.Invalidation.Graph.{
  Graph, lower, revoke, supersede_run, is_chapter_master, is_speech_of, speech_of_chapter,
}
use truyenaudio_studio.Projects.Invalidation.Later.{Settled, Later}
use truyenaudio_studio.Projects.Invalidation.Moves.{Off-kept, KeptOrNone-off}

abbrev pub artifact_ready : Artifact → Bool
artifact_ready a = is_ready a.status

abbrev pub export_is_ready : Export → Bool
export_is_ready e = is_export_ready e.status

abbrev pub run_is_current : TranslationRun → Bool
run_is_current r = is_current_run r.status

abbrev pub has_export : Chapter → Bool
has_export c = is_some c.last_export_id

abbrev pub has_master : Chapter → Bool
has_master c = is_some c.approved_master_artifact_id || is_some c.audio_approved_at

abbrev pub has_translation : Chapter → Bool
has_translation c =
    is_some c.approved_translation_run_id
    || is_some c.translation_approved_at
    || is_some c.active_voice_plan_id

-- No export of the chapter is READY, and the chapter names no last export.
pub record ExportsRevoked (chapter_id : ℕ) (db : Db) : Type 0 where
  pub exports : Off (λ e. e.chapter_id == chapter_id) export_is_ready db.exports
  pub pointer : Off (λ c. c.id == chapter_id) has_export db.chapters

-- And no MP3 or subtitle of the chapter is READY, and its audio is not approved.
pub record MastersCleared (chapter_id : ℕ) (db : Db) : Type 0 where
  pub revoked : ExportsRevoked chapter_id db
  pub masters : Off (is_chapter_master chapter_id) artifact_ready db.artifacts
  pub approval : Off (λ c. c.id == chapter_id) has_master db.chapters

-- No audio of the speech segment is READY.
abbrev pub Silent : SpeechSegment → Db → Type 0
Silent s db = Off (is_speech_of s.id) artifact_ready db.artifacts

-- And no run of the chapter is APPROVED or in REVIEW, its translation is not approved, and its speech is silent.
pub record TranslationCleared (now chapter_id : ℕ) (stored db : Db) : Type 0 where
  pub mastered : MastersCleared chapter_id db
  pub runs : Off (λ r. r.chapter_id == chapter_id) run_is_current db.translation_runs
  pub approval : Off (λ c. c.id == chapter_id) has_translation db.chapters
  pub silent : All (λ s. Silent s db) (speech_of_chapter stored now chapter_id)

pub lower_off : (a : Artifact) → artifact_ready (lower a) ≡ false
lower_off a = elim (Bool-cases (is_ready a.status)) [ inl h ↦ rw h refl | inr h ↦ rw h h ]

pub lower_master :
    (chapter_id : ℕ) (a : Artifact)
    → is_chapter_master chapter_id (lower a) ≡ is_chapter_master chapter_id a
lower_master chapter_id a = elim (Bool-cases (is_ready a.status)) [
  | inl h ↦ rw h refl
  | inr h ↦ rw h refl
]

pub lower_speech :
    (speech_id : ℕ) (a : Artifact) → is_speech_of speech_id (lower a) ≡ is_speech_of speech_id a
lower_speech speech_id a = elim (Bool-cases (is_ready a.status)) [
  | inl h ↦ rw h refl
  | inr h ↦ rw h refl
]

module _ (now : ℕ) where
  pub artifacts_kept :
      (selects : Artifact → Bool)
      → ((a : Artifact) → selects (lower a) ≡ selects a)
      → (g h : Graph) → Later now g h
      → Off selects artifact_ready g.current.artifacts
      → Off selects artifact_ready h.current.artifacts
  artifacts_kept selects same g h later =
      Off-kept (λ a. a.id) lower artifact_ready lower_off selects same h.invalidated
        g.current.artifacts h.current.artifacts later.artifacts

  pub runs_kept :
      (selects : TranslationRun → Bool)
      → ((r : TranslationRun) → selects (supersede_run r) ≡ selects r)
      → (g h : Graph) → Later now g h
      → Off selects run_is_current g.current.translation_runs
      → Off selects run_is_current h.current.translation_runs
  runs_kept selects same g h later =
      Off-kept (λ r. r.id) supersede_run run_is_current (λ r. refl) selects same h.invalidated
        g.current.translation_runs h.current.translation_runs later.runs

  pub exports_kept :
      (selects : Export → Bool)
      → ((e : Export) → selects (revoke now e) ≡ selects e)
      → (g h : Graph) → Later now g h
      → Off selects export_is_ready g.current.exports
      → Off selects export_is_ready h.current.exports
  exports_kept selects same g h later =
      Off-kept (λ e. e.id) (revoke now) export_is_ready (λ e. refl) selects same h.revoked_exports
        g.current.exports h.current.exports later.exports

  pub chapters_kept :
      (chapter_id : ℕ) (test : Chapter → Bool)
      → ((c d : Chapter) → Settled c d → test c ≡ false → test d ≡ false)
      → (g h : Graph) → Later now g h
      → Off (λ c. c.id == chapter_id) test g.current.chapters
      → Off (λ c. c.id == chapter_id) test h.current.chapters
  chapters_kept chapter_id test down g h later =
      Off-later Settled (λ c. c.id == chapter_id) test
        (λ c d s. ap (λ i. i == chapter_id) s.same_id) down g.current.chapters h.current.chapters
        later.chapters

  pub has_export_kept : (c d : Chapter) → Settled c d → has_export c ≡ false → has_export d ≡ false
  has_export_kept c d s = KeptOrNone-off c.last_export_id d.last_export_id s.export

  pub has_master_kept : (c d : Chapter) → Settled c d → has_master c ≡ false → has_master d ≡ false
  has_master_kept c d s h = ground (
    arith,
    h,
    KeptOrNone-off c.approved_master_artifact_id d.approved_master_artifact_id s.master,
    KeptOrNone-off c.audio_approved_at d.audio_approved_at s.master_time,
  )

  pub has_translation_kept :
      (c d : Chapter) → Settled c d → has_translation c ≡ false → has_translation d ≡ false
  has_translation_kept c d s h = ground (
    arith,
    h,
    KeptOrNone-off c.approved_translation_run_id d.approved_translation_run_id s.run,
    KeptOrNone-off c.translation_approved_at d.translation_approved_at s.run_time,
    KeptOrNone-off c.active_voice_plan_id d.active_voice_plan_id s.voice_plan,
  )

  pub ExportsRevoked-kept :
      (chapter_id : ℕ) (g h : Graph)
      → Later now g h
      → ExportsRevoked chapter_id g.current
      → ExportsRevoked chapter_id h.current
  ExportsRevoked-kept chapter_id g h later r = record {
    exports = exports_kept (λ e. e.chapter_id == chapter_id) (λ e. refl) g h later r.exports;
    pointer = chapters_kept chapter_id has_export has_export_kept g h later r.pointer;
  }

  pub MastersCleared-kept :
      (chapter_id : ℕ) (g h : Graph)
      → Later now g h
      → MastersCleared chapter_id g.current
      → MastersCleared chapter_id h.current
  MastersCleared-kept chapter_id g h later m = record {
    revoked = ExportsRevoked-kept chapter_id g h later m.revoked;
    masters =
        artifacts_kept (is_chapter_master chapter_id) (lower_master chapter_id) g h later m.masters;
    approval = chapters_kept chapter_id has_master has_master_kept g h later m.approval;
  }

  pub Silent-kept :
      (s : SpeechSegment) (g h : Graph) → Later now g h → Silent s g.current → Silent s h.current
  Silent-kept s g h later = artifacts_kept (is_speech_of s.id) (lower_speech s.id) g h later

  pub TranslationCleared-kept :
      (stored : Db) (chapter_id : ℕ) (g h : Graph)
      → Later now g h
      → TranslationCleared now chapter_id stored g.current
      → TranslationCleared now chapter_id stored h.current
  TranslationCleared-kept stored chapter_id g h later t = record {
    mastered = MastersCleared-kept chapter_id g h later t.mastered;
    runs = runs_kept (λ r. r.chapter_id == chapter_id) (λ r. refl) g h later t.runs;
    approval = chapters_kept chapter_id has_translation has_translation_kept g h later t.approval;
    silent =
        All-map (λ s. Silent s g.current) (λ s. Silent s h.current)
          (speech_of_chapter stored now chapter_id) (λ s. Silent-kept s g h later) t.silent;
  }
