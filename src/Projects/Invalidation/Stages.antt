-- ===== src/Projects/Invalidation/Stages.antt =====
-- Every operation of InvalidationGraph leads to a later state.
use truyenaudio_studio.Prelude.{
  ℕ, Option, none, some, List, [], ◌==◌, Option-cases, inl, inr, find_where,
}
use truyenaudio_studio.Projects.Invalidation.Schema.{
  ChangeKind, source_revision, project_metadata, glossary, story_memory, target_text, pronunciation,
  voice_role, master_settings, rights_evidence, Chapter, SpeechSegment, Export, Db,
}
use truyenaudio_studio.Projects.Invalidation.Queries.{
  chapters_for_source_revisions, chapters_for_projects_or_chapters, speech_for_translation_segments,
  speech_for_speech_or_chapter, speech_for_voice_roles,
}
use truyenaudio_studio.Projects.Invalidation.Graph.{
  Graph, update_chapter, supersede_artifact, supersede_one_run, for_each, supersede_bundle,
  revoke_export, revoke_exports, ready_exports, invalidate_master_chain, ready_masters,
  supersede_speech, tts_artifacts_for_speech, invalidate_all_speech_artifacts, speech_of_chapter,
  chapters_of_speech, invalidate_speech_segments, current_runs, invalidate_translation,
  apply_change,
}
use truyenaudio_studio.Projects.Invalidation.Later.{Later, Later-refl, Later-trans, Later-for_each}
use truyenaudio_studio.Projects.Invalidation.Steps.{
  clear_export, clear_master, clear_translation, clear_export-Settled, clear_master-Settled,
  clear_translation-Settled, supersede_artifact-Later, supersede_one_run-Later, revoke_row,
  revoke_row-Later, update_chapter-Later,
}

module _ (stored : Db) (now : ℕ) where
  pub supersede_bundle-Later :
      (o : Option ℕ) (g : Graph) → Later now g (supersede_bundle stored now o g)
  supersede_bundle-Later none g = Later-refl now g
  supersede_bundle-Later (some id) g =
      elim (Option-cases (find_where (λ a. a.id == id) stored.artifacts)) [
        | inl missing ↦ rw (supersede_bundle, missing) (Later-refl now g)
        | inr found ↦ rw (supersede_bundle, found.1) (supersede_artifact-Later now found.0 g)
      ]

  pub revoke_export-Later : (e : Export) (g : Graph) → Later now g (revoke_export stored now e g)
  unfolding revoke_export
  revoke_export-Later e g =
      Later-trans now g (revoke_row now e g)
        (supersede_bundle stored now e.bundle_artifact_id (revoke_row now e g))
        (revoke_row-Later now e g)
        (supersede_bundle-Later e.bundle_artifact_id (revoke_row now e g))

  pub revoke_exports-Later :
      (chapter_id : ℕ) (g : Graph) → Later now g (revoke_exports stored now chapter_id g)
  unfolding revoke_exports
  revoke_exports-Later chapter_id g =
      let revoked : Graph =
        for_each (revoke_export stored now) (ready_exports stored now chapter_id) g in
      Later-trans now g revoked (update_chapter chapter_id clear_export revoked)
        (Later-for_each now (revoke_export stored now) revoke_export-Later
          (ready_exports stored now chapter_id) g)
        (update_chapter-Later now chapter_id clear_export clear_export-Settled revoked)

  pub invalidate_master_chain-Later :
      (chapter_id : ℕ) (g : Graph) → Later now g (invalidate_master_chain stored now chapter_id g)
  unfolding invalidate_master_chain
  invalidate_master_chain-Later chapter_id g =
      let masters : Graph = for_each supersede_artifact (ready_masters stored now chapter_id) g in
      let cleared : Graph = update_chapter chapter_id clear_master masters in
      Later-trans now g masters (revoke_exports stored now chapter_id cleared)
        (Later-for_each now supersede_artifact (supersede_artifact-Later now)
          (ready_masters stored now chapter_id) g)
        (Later-trans now masters cleared (revoke_exports stored now chapter_id cleared)
          (update_chapter-Later now chapter_id clear_master clear_master-Settled masters)
          (revoke_exports-Later chapter_id cleared))

  pub supersede_speech-Later :
      (s : SpeechSegment) (g : Graph) → Later now g (supersede_speech stored now s g)
  unfolding supersede_speech
  supersede_speech-Later s g =
      Later-for_each now supersede_artifact (supersede_artifact-Later now)
        (tts_artifacts_for_speech stored now s.id) g

  pub invalidate_all_speech_artifacts-Later :
      (chapter_id : ℕ) (g : Graph)
      → Later now g (invalidate_all_speech_artifacts stored now chapter_id g)
  unfolding invalidate_all_speech_artifacts
  invalidate_all_speech_artifacts-Later chapter_id g =
      Later-for_each now (supersede_speech stored now) supersede_speech-Later
        (speech_of_chapter stored now chapter_id) g

  pub invalidate_speech_segments-Later :
      (ss : List SpeechSegment) (g : Graph)
      → Later now g (invalidate_speech_segments stored now ss g)
  unfolding invalidate_speech_segments
  invalidate_speech_segments-Later ss g =
      let silent : Graph = for_each (supersede_speech stored now) ss g in
      let chain : Chapter → Graph → Graph = λ c. invalidate_master_chain stored now c.id in
      Later-trans now g silent (for_each chain (chapters_of_speech stored now [] ss) silent)
        (Later-for_each now (supersede_speech stored now) supersede_speech-Later ss g)
        (Later-for_each now chain (λ c. invalidate_master_chain-Later c.id)
          (chapters_of_speech stored now [] ss) silent)

  pub invalidate_translation-Later :
      (chapter_id : ℕ) (g : Graph) → Later now g (invalidate_translation stored now chapter_id g)
  unfolding invalidate_translation
  invalidate_translation-Later chapter_id g =
      let runs : Graph = for_each supersede_one_run (current_runs stored now chapter_id) g in
      let cleared : Graph = update_chapter chapter_id clear_translation runs in
      let silent : Graph = invalidate_all_speech_artifacts stored now chapter_id cleared in
      let final : Graph = invalidate_master_chain stored now chapter_id silent in
      Later-trans now g runs final
        (Later-for_each now supersede_one_run (supersede_one_run-Later now)
          (current_runs stored now chapter_id) g)
        (Later-trans now runs cleared final
          (update_chapter-Later now chapter_id clear_translation clear_translation-Settled runs)
          (Later-trans now cleared silent final
            (invalidate_all_speech_artifacts-Later chapter_id cleared)
            (invalidate_master_chain-Later chapter_id silent)))

  pub each_chapter-Later :
      (body : ℕ → Graph → Graph)
      → ((c : ℕ) (g : Graph) → Later now g (body c g))
      → (cs : List Chapter) (g : Graph) → Later now g (for_each (λ c. body c.id) cs g)
  each_chapter-Later body step cs g = Later-for_each now (λ c. body c.id) (λ c. step c.id) cs g

  pub apply_change-Later :
      (kind : ChangeKind) (ids : List ℕ) (g : Graph)
      → Later now g (apply_change stored now kind ids g)
  unfolding apply_change
  apply_change-Later source_revision ids g =
      each_chapter-Later (invalidate_translation stored now) invalidate_translation-Later
        (chapters_for_source_revisions stored ids) g
  apply_change-Later project_metadata ids g =
      each_chapter-Later (invalidate_translation stored now) invalidate_translation-Later
        (chapters_for_projects_or_chapters stored ids) g
  apply_change-Later glossary ids g =
      each_chapter-Later (invalidate_translation stored now) invalidate_translation-Later
        (chapters_for_projects_or_chapters stored ids) g
  apply_change-Later story_memory ids g =
      each_chapter-Later (invalidate_translation stored now) invalidate_translation-Later
        (chapters_for_projects_or_chapters stored ids) g
  apply_change-Later target_text ids g =
      invalidate_speech_segments-Later (speech_for_translation_segments stored ids) g
  apply_change-Later pronunciation ids g =
      invalidate_speech_segments-Later (speech_for_speech_or_chapter stored ids) g
  apply_change-Later voice_role ids g =
      invalidate_speech_segments-Later (speech_for_voice_roles stored ids) g
  apply_change-Later master_settings ids g =
      each_chapter-Later (invalidate_master_chain stored now) invalidate_master_chain-Later
        (chapters_for_projects_or_chapters stored ids) g
  apply_change-Later rights_evidence ids g =
      each_chapter-Later (revoke_exports stored now) revoke_exports-Later
        (chapters_for_projects_or_chapters stored ids) g
