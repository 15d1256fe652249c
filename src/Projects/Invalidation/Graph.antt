-- ===== src/Projects/Invalidation/Graph.antt =====
-- InvalidationGraph: `stored` is what its queries read, and Graph the objects that it changes.
use truyenaudio_studio.Prelude.{
  ℕ, Bool, ◌||◌, ◌&&◌, not, Option, none, some, List, [], ◌∷◌, ◌==◌, if◌then◌else◌, opt_eq, is_some,
  select_where, find_where, update_where,
}
use truyenaudio_studio.Prelude.Sets.{is_in, add_id, is_in_opt}
use truyenaudio_studio.Projects.Invalidation.Schema.{
  Change, ChangeKind, source_revision, project_metadata, glossary, story_memory, target_text,
  pronunciation, voice_role, master_settings, rights_evidence, InvalidationPlan, run_superseded,
  superseded, export_revoked, Chapter, TranslationRun, SpeechSegment, Artifact, Export, Db,
  is_ready, is_export_ready, is_current_run, is_tts, is_master,
}
use truyenaudio_studio.Projects.Invalidation.Queries.{
  chapters_for_source_revisions, chapters_for_projects_or_chapters, speech_for_translation_segments,
  speech_for_speech_or_chapter, speech_for_voice_roles, changed_chapter_ids, get_chapter,
  add_chapter,
}

pub record Graph : Type 0 where
  pub current : Db
  pub invalidated : List ℕ
  pub revoked_exports : List ℕ

abbrev pub lower : Artifact → Artifact
lower a = if is_ready a.status then record a { status = superseded } else a

abbrev pub revoke : ℕ → Export → Export
revoke now e = record e { status = export_revoked; revoked_at = some now }

abbrev pub supersede_run : TranslationRun → TranslationRun
supersede_run r = record r { status = run_superseded }

abbrev pub update_artifacts : (List Artifact → List Artifact) → Graph → Graph
update_artifacts f g = record g { current = record g.current { artifacts = f g.current.artifacts } }

abbrev pub update_exports : (List Export → List Export) → Graph → Graph
update_exports f g = record g { current = record g.current { exports = f g.current.exports } }

abbrev pub update_runs : (List TranslationRun → List TranslationRun) → Graph → Graph
update_runs f g = record g {
  current = record g.current { translation_runs = f g.current.translation_runs };
}

abbrev pub update_chapter : ℕ → (Chapter → Chapter) → Graph → Graph
update_chapter chapter_id f g = record g {
  current = record g.current {
    chapters = update_where (λ c. c.id == chapter_id) f g.current.chapters;
  };
}

abbrev pub add_invalidated : ℕ → Graph → Graph
add_invalidated id g = record g { invalidated = add_id id g.invalidated }

abbrev pub add_revoked : ℕ → Graph → Graph
add_revoked id g = record g { revoked_exports = add_id id g.revoked_exports }

-- for row in rows
abbrev pub for_each : {A : Type 0} → (A → Graph → Graph) → List A → Graph → Graph
for_each body [] g = g
for_each body (x ∷ xs) g = for_each body xs (body x g)

-- `_supersede_artifact`
unfoldable pub supersede_artifact : Artifact → Graph → Graph
supersede_artifact artifact g =
    add_invalidated artifact.id (update_artifacts (update_where (λ a. a.id == artifact.id) lower) g)

-- One round of the loop over the runs of `_invalidate_translation`.
abbrev pub supersede_one_run : TranslationRun → Graph → Graph
supersede_one_run run g =
    add_invalidated run.id (update_runs (update_where (λ r. r.id == run.id) supersede_run) g)

abbrev pub is_chapter_master : ℕ → Artifact → Bool
is_chapter_master chapter_id a = opt_eq a.chapter_id (some chapter_id) && is_master a.kind

abbrev pub is_speech_of : ℕ → Artifact → Bool
is_speech_of speech_segment_id a =
    is_tts a.kind && opt_eq a.speech_segment_id (some speech_segment_id)

abbrev pub ids_of : List Artifact → List ℕ
ids_of [] = []
ids_of (a ∷ as') = add_id a.id (ids_of as')

module _ (stored : Db) (now : ℕ) where
  abbrev pub supersede_bundle : Option ℕ → Graph → Graph
  supersede_bundle none g = g
  supersede_bundle (some id) g = elim (find_where (λ a. a.id == id) stored.artifacts) [
    | none ↦ g
    | some artifact ↦ supersede_artifact artifact g
  ]

  -- One round of the loop of `_revoke_exports`.
  unfoldable pub revoke_export : Export → Graph → Graph
  revoke_export export g = supersede_bundle export.bundle_artifact_id (
      add_revoked export.id (
        add_invalidated export.id
          (update_exports (update_where (λ e. e.id == export.id) (revoke now)) g)))

  abbrev pub ready_exports : ℕ → List Export
  ready_exports chapter_id =
      select_where (λ e. e.chapter_id == chapter_id && is_export_ready e.status) stored.exports

  unfoldable pub revoke_exports : ℕ → Graph → Graph
  revoke_exports chapter_id g =
      update_chapter chapter_id (λ c. record c { last_export_id = none })
        (for_each revoke_export (ready_exports chapter_id) g)

  abbrev pub ready_masters : ℕ → List Artifact
  ready_masters chapter_id =
      select_where (λ a. is_chapter_master chapter_id a && is_ready a.status) stored.artifacts

  unfoldable pub invalidate_master_chain : ℕ → Graph → Graph
  invalidate_master_chain chapter_id g = revoke_exports chapter_id (
      update_chapter chapter_id
        (λ c. record c { approved_master_artifact_id = none; audio_approved_at = none })
        (for_each supersede_artifact (ready_masters chapter_id) g))

  abbrev pub tts_artifacts_for_speech : ℕ → List Artifact
  tts_artifacts_for_speech speech_segment_id =
      select_where (λ a. is_speech_of speech_segment_id a && is_ready a.status) stored.artifacts

  unfoldable pub supersede_speech : SpeechSegment → Graph → Graph
  supersede_speech segment g = for_each supersede_artifact (tts_artifacts_for_speech segment.id) g

  abbrev pub speech_of_chapter : ℕ → List SpeechSegment
  speech_of_chapter chapter_id =
      select_where (λ s. s.chapter_id == chapter_id) stored.speech_segments

  unfoldable pub invalidate_all_speech_artifacts : ℕ → Graph → Graph
  invalidate_all_speech_artifacts chapter_id g =
      for_each supersede_speech (speech_of_chapter chapter_id) g

  -- `chapters`, in the order in which the loop of `_invalidate_speech_segments` finds them.
  unfoldable pub chapters_of_speech : List ℕ → List SpeechSegment → List Chapter
  chapters_of_speech seen [] = []
  chapters_of_speech seen (s ∷ ss) =
      let rest =
        chapters_of_speech
          (if is_some (get_chapter stored s.chapter_id) then add_id s.chapter_id seen else seen)
          ss in
      if is_in s.chapter_id seen
      then rest
      else add_chapter stored (get_chapter stored s.chapter_id) rest

  unfoldable pub invalidate_speech_segments : List SpeechSegment → Graph → Graph
  invalidate_speech_segments segments g =
      for_each (λ c. invalidate_master_chain c.id) (chapters_of_speech [] segments)
        (for_each supersede_speech segments g)

  abbrev pub current_runs : ℕ → List TranslationRun
  current_runs chapter_id =
      select_where (λ r. r.chapter_id == chapter_id && is_current_run r.status)
        stored.translation_runs

  unfoldable pub invalidate_translation : ℕ → Graph → Graph
  invalidate_translation chapter_id g = invalidate_master_chain chapter_id (
      invalidate_all_speech_artifacts chapter_id (
        update_chapter chapter_id
          (λ c. record c {
            approved_translation_run_id = none;
            translation_approved_at = none;
            active_voice_plan_id = none;
          })
          (for_each supersede_one_run (current_runs chapter_id) g)))

  -- The branches of `plan`.
  unfoldable pub apply_change : ChangeKind → List ℕ → Graph → Graph
  apply_change source_revision ids g =
      for_each (λ c. invalidate_translation c.id) (chapters_for_source_revisions stored ids) g
  apply_change glossary ids g =
      for_each (λ c. invalidate_translation c.id) (chapters_for_projects_or_chapters stored ids) g
  apply_change story_memory ids g =
      for_each (λ c. invalidate_translation c.id) (chapters_for_projects_or_chapters stored ids) g
  apply_change project_metadata ids g =
      for_each (λ c. invalidate_translation c.id) (chapters_for_projects_or_chapters stored ids) g
  apply_change target_text ids g =
      invalidate_speech_segments (speech_for_translation_segments stored ids) g
  apply_change pronunciation ids g =
      invalidate_speech_segments (speech_for_speech_or_chapter stored ids) g
  apply_change voice_role ids g = invalidate_speech_segments (speech_for_voice_roles stored ids) g
  apply_change master_settings ids g =
      for_each (λ c. invalidate_master_chain c.id) (chapters_for_projects_or_chapters stored ids) g
  apply_change rights_evidence ids g =
      for_each (λ c. revoke_exports c.id) (chapters_for_projects_or_chapters stored ids) g

  abbrev pub new_graph : Graph
  new_graph = record { current = stored; invalidated = []; revoked_exports = [] }

  -- `_ready_reused_artifacts`
  unfoldable pub ready_reused_artifacts : List ℕ → List ℕ → List ℕ
  ready_reused_artifacts chapter_ids invalidated = ids_of (
      select_where
        (λ a.
          is_in_opt a.chapter_id chapter_ids
          && (is_tts a.kind || is_master a.kind)
          && is_ready a.status
          && not (is_in a.id invalidated))
        stored.artifacts)

-- `plan`, with the tables after the flush.
unfoldable pub plan : ℕ → Change → Db → InvalidationPlan × Db
plan now change stored =
    let g = apply_change stored now change.kind change.affected_ids (new_graph stored now) in
    (
      record {
        reused =
            ready_reused_artifacts stored now
              (changed_chapter_ids stored change.kind change.affected_ids) g.invalidated;
        invalidated = g.invalidated;
        revoked_exports = g.revoked_exports;
      },
      g.current,
    )
