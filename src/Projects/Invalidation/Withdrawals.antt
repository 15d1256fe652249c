-- ===== src/Projects/Invalidation/Withdrawals.antt =====
-- Every operation of InvalidationGraph keeps that the listed identifiers are those of stored rows that are withdrawn.
use truyenaudio_studio.Prelude.{
  ℕ, ◌≡◌, sym, subst, Option, none, some, List, [], ◌&&◌, ◌==◌, ==_iff, Option-cases, inl, inr,
  find_where, find_where_found,
}
use truyenaudio_studio.Projects.Invalidation.Schema.{
  ChangeKind, source_revision, project_metadata, glossary, story_memory, target_text, pronunciation,
  voice_role, master_settings, rights_evidence, Chapter, SpeechSegment, Export, Db, is_ready,
  is_current_run, is_export_ready,
}
use truyenaudio_studio.Projects.Invalidation.Queries.{
  chapters_for_source_revisions, chapters_for_projects_or_chapters, speech_for_translation_segments,
  speech_for_speech_or_chapter, speech_for_voice_roles,
}
use truyenaudio_studio.Projects.Invalidation.Graph.{
  Graph, update_chapter, supersede_artifact, supersede_one_run, for_each, supersede_bundle,
  revoke_export, revoke_exports, ready_exports, invalidate_master_chain, ready_masters,
  supersede_speech, tts_artifacts_for_speech, invalidate_all_speech_artifacts, speech_of_chapter,
  chapters_of_speech, invalidate_speech_segments, current_runs, invalidate_translation,
  apply_change, is_chapter_master, is_speech_of,
}
use truyenaudio_studio.Projects.Invalidation.Steps.{
  clear_export, clear_master, clear_translation, revoke_row,
}
use truyenaudio_studio.Projects.Invalidation.Listed.{
  Listed, HasArtifact, HasRun, HasExport, supersede_artifact-Listed, supersede_one_run-Listed,
  revoke_row-Listed, for_each-Listed, for_all-Listed, selected-there, found-there,
}

module _ (stored : Db) (now : ℕ) where
  abbrev Keeps : (Graph → Graph) → Type 0
  Keeps op = (g : Graph) → Listed stored now g → Listed stored now (op g)

  update_chapter-Listed : (c : ℕ) (f : Chapter → Chapter) → Keeps (update_chapter c f)
  update_chapter-Listed c f g l = record { down = l.down; revoked = l.revoked }

  supersede_bundle-Listed : (o : Option ℕ) → Keeps (supersede_bundle stored now o)
  supersede_bundle-Listed none g l = l
  supersede_bundle-Listed (some id) g l =
      elim (Option-cases (find_where (λ a. a.id == id) stored.artifacts)) [
        | inl missing ↦ rw (supersede_bundle, missing) l
        | inr found ↦
            let same : found.0.id ≡ id =
              (==_iff found.0.id id).0
                (find_where_found (λ a. a.id == id) stored.artifacts found.1) in
            rw (supersede_bundle, found.1)
              (supersede_artifact-Listed stored now found.0
                (subst (λ i. HasArtifact i stored.artifacts) (sym same)
                  (found-there (λ a. a.id == id) stored.artifacts {x = found.0} found.1))
                g l)
      ]

  revoke_export-Listed :
      (e : Export) → HasExport e.id stored.exports → Keeps (revoke_export stored now e)
  unfolding revoke_export
  revoke_export-Listed e there g l =
      supersede_bundle-Listed e.bundle_artifact_id (revoke_row now e g)
        (revoke_row-Listed stored now e there g l)

  revoke_exports-Listed : (c : ℕ) → Keeps (revoke_exports stored now c)
  unfolding revoke_exports
  revoke_exports-Listed c g l =
      update_chapter-Listed c clear_export
        (for_each (revoke_export stored now) (ready_exports stored now c) g)
        (for_each-Listed stored now (λ e. HasExport e.id stored.exports) (revoke_export stored now)
          revoke_export-Listed (ready_exports stored now c)
          (selected-there (λ e. e.id) (λ e. e.chapter_id == c && is_export_ready e.status)
            stored.exports)
          g l)

  invalidate_master_chain-Listed : (c : ℕ) → Keeps (invalidate_master_chain stored now c)
  unfolding invalidate_master_chain
  invalidate_master_chain-Listed c g l =
      let masters : Graph = for_each supersede_artifact (ready_masters stored now c) g in
      revoke_exports-Listed c (update_chapter c clear_master masters) (
        update_chapter-Listed c clear_master masters (
          for_each-Listed stored now (λ a. HasArtifact a.id stored.artifacts) supersede_artifact
            (supersede_artifact-Listed stored now) (ready_masters stored now c)
            (selected-there (λ a. a.id) (λ a. is_chapter_master c a && is_ready a.status)
              stored.artifacts)
            g l))

  supersede_speech-Listed : (s : SpeechSegment) → Keeps (supersede_speech stored now s)
  unfolding supersede_speech
  supersede_speech-Listed s g l =
      for_each-Listed stored now (λ a. HasArtifact a.id stored.artifacts) supersede_artifact
        (supersede_artifact-Listed stored now) (tts_artifacts_for_speech stored now s.id)
        (selected-there (λ a. a.id) (λ a. is_speech_of s.id a && is_ready a.status)
          stored.artifacts)
        g l

  invalidate_all_speech_artifacts-Listed :
      (c : ℕ) → Keeps (invalidate_all_speech_artifacts stored now c)
  unfolding invalidate_all_speech_artifacts
  invalidate_all_speech_artifacts-Listed c =
      for_all-Listed stored now (supersede_speech stored now) supersede_speech-Listed
        (speech_of_chapter stored now c)

  invalidate_speech_segments-Listed :
      (ss : List SpeechSegment) → Keeps (invalidate_speech_segments stored now ss)
  unfolding invalidate_speech_segments
  invalidate_speech_segments-Listed ss g l =
      for_all-Listed stored now (λ c. invalidate_master_chain stored now c.id)
        (λ c. invalidate_master_chain-Listed c.id) (chapters_of_speech stored now [] ss)
        (for_each (supersede_speech stored now) ss g)
        (for_all-Listed stored now (supersede_speech stored now) supersede_speech-Listed ss g l)

  invalidate_translation-Listed : (c : ℕ) → Keeps (invalidate_translation stored now c)
  unfolding invalidate_translation
  invalidate_translation-Listed c g l =
      let runs : Graph = for_each supersede_one_run (current_runs stored now c) g in
      let cleared : Graph = update_chapter c clear_translation runs in
      invalidate_master_chain-Listed c (invalidate_all_speech_artifacts stored now c cleared) (
        invalidate_all_speech_artifacts-Listed c cleared (
          update_chapter-Listed c clear_translation runs (
            for_each-Listed stored now (λ r. HasRun r.id stored.translation_runs) supersede_one_run
              (supersede_one_run-Listed stored now) (current_runs stored now c)
              (selected-there (λ r. r.id) (λ r. r.chapter_id == c && is_current_run r.status)
                stored.translation_runs)
              g l)))

  each_chapter-Listed :
      (body : ℕ → Graph → Graph)
      → ((c : ℕ) → Keeps (body c))
      → (cs : List Chapter) → Keeps (for_each (λ c. body c.id) cs)
  each_chapter-Listed body step = for_all-Listed stored now (λ c. body c.id) (λ c. step c.id)

  pub apply_change-Listed :
      (kind : ChangeKind) (ids : List ℕ) → Keeps (apply_change stored now kind ids)
  unfolding apply_change
  apply_change-Listed source_revision ids =
      each_chapter-Listed (invalidate_translation stored now) invalidate_translation-Listed
        (chapters_for_source_revisions stored ids)
  apply_change-Listed project_metadata ids =
      each_chapter-Listed (invalidate_translation stored now) invalidate_translation-Listed
        (chapters_for_projects_or_chapters stored ids)
  apply_change-Listed glossary ids =
      each_chapter-Listed (invalidate_translation stored now) invalidate_translation-Listed
        (chapters_for_projects_or_chapters stored ids)
  apply_change-Listed story_memory ids =
      each_chapter-Listed (invalidate_translation stored now) invalidate_translation-Listed
        (chapters_for_projects_or_chapters stored ids)
  apply_change-Listed target_text ids =
      invalidate_speech_segments-Listed (speech_for_translation_segments stored ids)
  apply_change-Listed pronunciation ids =
      invalidate_speech_segments-Listed (speech_for_speech_or_chapter stored ids)
  apply_change-Listed voice_role ids =
      invalidate_speech_segments-Listed (speech_for_voice_roles stored ids)
  apply_change-Listed master_settings ids =
      each_chapter-Listed (invalidate_master_chain stored now) invalidate_master_chain-Listed
        (chapters_for_projects_or_chapters stored ids)
  apply_change-Listed rights_evidence ids =
      each_chapter-Listed (revoke_exports stored now) revoke_exports-Listed
        (chapters_for_projects_or_chapters stored ids)
