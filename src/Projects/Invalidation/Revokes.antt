-- ===== src/Projects/Invalidation/Revokes.antt =====
-- revoke_exports, invalidate_master_chain and invalidate_translation of backend/app/modules/projects/invalidation.py.
use truyenaudio_studio.Prelude.{
  ℕ, ◌≡◌, refl, ap, Bool, ◌&&◌, List, ◌==◌, select_where, All, All-map,
}
use truyenaudio_studio.Prelude.Rows.Pairs.{Off, Off-update}
use truyenaudio_studio.Projects.Invalidation.Schema.{
  TranslationRun, SpeechSegment, Artifact, Export, Db, is_ready,
}
use truyenaudio_studio.Projects.Invalidation.Graph.{
  Graph, lower, revoke, supersede_run, update_chapter, supersede_artifact, supersede_one_run,
  for_each, new_graph, supersede_bundle, revoke_export, revoke_exports, ready_exports,
  invalidate_master_chain, ready_masters, is_chapter_master, is_speech_of, supersede_speech,
  invalidate_all_speech_artifacts, speech_of_chapter, current_runs, invalidate_translation,
}
use truyenaudio_studio.Projects.Invalidation.Later.{Later, Later-trans, Later-for_each, lower_id}
use truyenaudio_studio.Projects.Invalidation.Steps.{
  supersede_artifact-Later, supersede_one_run-Later, revoke_row, update_chapter-Later, clear_export,
  clear_master, clear_translation, clear_master-Settled, clear_translation-Settled,
}
use truyenaudio_studio.Projects.Invalidation.Stages.{
  supersede_bundle-Later, revoke_export-Later, revoke_exports-Later, invalidate_master_chain-Later,
  supersede_speech-Later,
}
use truyenaudio_studio.Projects.Invalidation.Moves.{Off-selected, for_each_does}
use truyenaudio_studio.Projects.Invalidation.Clears.{
  artifact_ready, export_is_ready, run_is_current, has_export, has_master, has_translation,
  ExportsRevoked, MastersCleared, Silent, TranslationCleared, lower_off, lower_master, lower_speech,
  artifacts_kept, runs_kept, exports_kept, chapters_kept, has_master_kept, has_translation_kept,
  Silent-kept,
}

module _ (stored : Db) (now : ℕ) where
  abbrev Start : Graph
  Start = new_graph stored now

  supersede_artifact-Off :
      (a : Artifact) (g : Graph)
      → Off (λ b. b.id == a.id) artifact_ready (supersede_artifact a g).current.artifacts
  unfolding supersede_artifact
  supersede_artifact-Off a g =
      Off-update (λ b. b.id == a.id) artifact_ready lower lower_off g.current.artifacts

  -- The loop over the selected READY artifacts leaves none of the selection READY.
  artifacts_cleared :
      (selects : Artifact → Bool)
      → ((a : Artifact) → selects (lower a) ≡ selects a)
      → (g : Graph) → Later now Start g
      → Off selects artifact_ready
          (for_each supersede_artifact
            (select_where (λ a. selects a && is_ready a.status) stored.artifacts)
            g).current.artifacts
  artifacts_cleared selects same g later =
      let rows : List Artifact =
        select_where (λ a. selects a && is_ready a.status) stored.artifacts in
      let after : Graph = for_each supersede_artifact rows g in
      Off-selected (λ a. a.id) lower artifact_ready lower_off selects same lower_id
        after.invalidated stored.artifacts after.current.artifacts
        (Later-trans now Start g after later
          (Later-for_each now supersede_artifact (supersede_artifact-Later now) rows g)).artifacts
        (for_each_does now Start supersede_artifact
          (λ a h. Off (λ b. b.id == a.id) artifact_ready h.current.artifacts)
          (supersede_artifact-Later now)
          (λ a. artifacts_kept now (λ b. b.id == a.id) (λ b. ap (λ i. i == a.id) (lower_id b)))
          (λ a h _. supersede_artifact-Off a h) rows g later)

  runs_cleared :
      (chapter_id : ℕ) (g : Graph)
      → Later now Start g
      → Off
          (λ r. r.chapter_id == chapter_id)
          run_is_current
          (for_each supersede_one_run
            (current_runs stored now chapter_id)
            g).current.translation_runs
  runs_cleared chapter_id g later =
      let rows : List TranslationRun = current_runs stored now chapter_id in
      let after : Graph = for_each supersede_one_run rows g in
      Off-selected (λ r. r.id) supersede_run run_is_current (λ r. refl)
        (λ r. r.chapter_id == chapter_id) (λ r. refl) (λ r. refl) after.invalidated
        stored.translation_runs after.current.translation_runs
        (Later-trans now Start g after later
          (Later-for_each now supersede_one_run (supersede_one_run-Later now) rows g)).runs
        (for_each_does now Start supersede_one_run
          (λ r h. Off (λ x. x.id == r.id) run_is_current h.current.translation_runs)
          (supersede_one_run-Later now) (λ r. runs_kept now (λ x. x.id == r.id) (λ x. refl))
          (λ r h _.
            Off-update (λ x. x.id == r.id) run_is_current supersede_run (λ x. refl)
              h.current.translation_runs)
          rows g later)

  revoke_export-Off :
      (e : Export) (g : Graph)
      → Off (λ x. x.id == e.id) export_is_ready (revoke_export stored now e g).current.exports
  unfolding revoke_export
  revoke_export-Off e g =
      let row : Graph = revoke_row now e g in
      exports_kept now (λ x. x.id == e.id) (λ x. refl) row
        (supersede_bundle stored now e.bundle_artifact_id row)
        (supersede_bundle-Later stored now e.bundle_artifact_id row)
        (Off-update (λ x. x.id == e.id) export_is_ready (revoke now) (λ x. refl) g.current.exports)

  pub revoke_exports_revokes :
      (chapter_id : ℕ) (g : Graph)
      → Later now Start g
      → ExportsRevoked chapter_id (revoke_exports stored now chapter_id g).current
  unfolding revoke_exports
  revoke_exports_revokes chapter_id g later =
      let rows : List Export = ready_exports stored now chapter_id in
      let after : Graph = for_each (revoke_export stored now) rows g in
      record {
        exports =
            Off-selected (λ e. e.id) (revoke now) export_is_ready (λ e. refl)
              (λ e. e.chapter_id == chapter_id) (λ e. refl) (λ e. refl) after.revoked_exports
              stored.exports after.current.exports
              (Later-trans now Start g after later (
                Later-for_each now (revoke_export stored now) (revoke_export-Later stored now) rows
                  g)).exports
              (for_each_does now Start (revoke_export stored now)
                (λ e h. Off (λ x. x.id == e.id) export_is_ready h.current.exports)
                (revoke_export-Later stored now)
                (λ e. exports_kept now (λ x. x.id == e.id) (λ x. refl))
                (λ e h _. revoke_export-Off e h) rows g later);
        pointer =
            Off-update (λ c. c.id == chapter_id) has_export clear_export (λ c. refl)
              after.current.chapters;
      }

  pub invalidate_master_chain_clears :
      (chapter_id : ℕ) (g : Graph)
      → Later now Start g
      → MastersCleared chapter_id (invalidate_master_chain stored now chapter_id g).current
  unfolding invalidate_master_chain
  invalidate_master_chain_clears chapter_id g later =
      let rows : List Artifact = ready_masters stored now chapter_id in
      let lowered : Graph = for_each supersede_artifact rows g in
      let cleared : Graph = update_chapter chapter_id clear_master lowered in
      let last : Later now cleared (revoke_exports stored now chapter_id cleared) =
        revoke_exports-Later stored now chapter_id cleared in
      record {
        revoked = revoke_exports_revokes chapter_id cleared (
            Later-trans now Start g cleared later (
              Later-trans now g lowered cleared
                (Later-for_each now supersede_artifact (supersede_artifact-Later now) rows g)
                (update_chapter-Later now chapter_id clear_master clear_master-Settled lowered)));
        masters =
            artifacts_kept now (is_chapter_master chapter_id) (lower_master chapter_id) cleared
              (revoke_exports stored now chapter_id cleared) last
              (artifacts_cleared (is_chapter_master chapter_id) (lower_master chapter_id) g later);
        approval =
            chapters_kept now chapter_id has_master (has_master_kept now) cleared
              (revoke_exports stored now chapter_id cleared) last
              (Off-update (λ c. c.id == chapter_id) has_master clear_master (λ c. refl)
                lowered.current.chapters);
      }

  pub supersede_speech_silences :
      (s : SpeechSegment) (g : Graph)
      → Later now Start g
      → Silent s (supersede_speech stored now s g).current
  unfolding supersede_speech
  supersede_speech_silences s g later =
      artifacts_cleared (is_speech_of s.id) (lower_speech s.id) g later

  pub each_speech_silences :
      (ss : List SpeechSegment) (g : Graph)
      → Later now Start g
      → All (λ s. Silent s (for_each (supersede_speech stored now) ss g).current) ss
  each_speech_silences ss g later =
      for_each_does now Start (supersede_speech stored now) (λ s h. Silent s h.current)
        (supersede_speech-Later stored now) (Silent-kept now) supersede_speech_silences ss g later

  pub invalidate_translation_clears :
      (chapter_id : ℕ) (g : Graph)
      → Later now Start g
      → TranslationCleared now chapter_id stored
          (invalidate_translation stored now chapter_id g).current
  unfolding invalidate_translation invalidate_all_speech_artifacts
  invalidate_translation_clears chapter_id g later =
      let segments : List SpeechSegment = speech_of_chapter stored now chapter_id in
      let runs : Graph = for_each supersede_one_run (current_runs stored now chapter_id) g in
      let cleared : Graph = update_chapter chapter_id clear_translation runs in
      let silent : Graph = for_each (supersede_speech stored now) segments cleared in
      let final : Graph = invalidate_master_chain stored now chapter_id silent in
      let to_cleared : Later now g cleared =
        Later-trans now g runs cleared
          (Later-for_each now supersede_one_run (supersede_one_run-Later now)
            (current_runs stored now chapter_id) g)
          (update_chapter-Later now chapter_id clear_translation clear_translation-Settled runs) in
      let to_silent : Later now cleared silent =
        Later-for_each now (supersede_speech stored now) (supersede_speech-Later stored now)
          segments cleared in
      let to_final : Later now silent final =
        invalidate_master_chain-Later stored now chapter_id silent in
      let from_cleared : Later now cleared final =
        Later-trans now cleared silent final to_silent to_final in
      let start_cleared : Later now Start cleared =
        Later-trans now Start g cleared later to_cleared in
      record {
        mastered =
            invalidate_master_chain_clears chapter_id silent
              (Later-trans now Start cleared silent start_cleared to_silent);
        runs =
            runs_kept now (λ r. r.chapter_id == chapter_id) (λ r. refl) cleared final from_cleared
              (runs_cleared chapter_id g later);
        approval =
            chapters_kept now chapter_id has_translation (has_translation_kept now) cleared final
              from_cleared
              (Off-update (λ c. c.id == chapter_id) has_translation clear_translation (λ c. refl)
                runs.current.chapters);
        silent =
            All-map (λ s. Silent s silent.current) (λ s. Silent s final.current) segments
              (λ s. Silent-kept now s silent final to_final)
              (each_speech_silences segments cleared start_cleared);
      }
