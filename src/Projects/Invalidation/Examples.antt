-- ===== src/Projects/Invalidation/Examples.antt =====
-- Plans for a library of two chapters, of which the first is exported.
use truyenaudio_studio.Prelude.Order.{insert_by}
use truyenaudio_studio.Prelude.{
  ℕ, ◌≡◌, refl, false, ◌&&◌, not, none, some, [], ◌∷◌, All, select_where, find_where,
}
use truyenaudio_studio.Prelude.Sets.{is_in, add_id}
use truyenaudio_studio.Projects.Invalidation.Schema.{
  Change, glossary, rights_evidence, voice_role, Chapter, run_approved, SpeechSegment, ready,
  tts_segment, master_mp3, publication_bundle, export_ready, export_failed, Db,
}
use truyenaudio_studio.Projects.Invalidation.Queries.{unique_chapters}
use truyenaudio_studio.Projects.Invalidation.Graph.{
  plan, ready_reused_artifacts, apply_change, revoke_exports, revoke_export, supersede_artifact,
  invalidate_translation, invalidate_master_chain, invalidate_all_speech_artifacts,
  supersede_speech,
}
use truyenaudio_studio.Projects.Invalidation.Clears.{Silent}
use truyenaudio_studio.Projects.Invalidation.Plans.{
  Promise, changed_speech, plan_clears, plan_silences,
}
use truyenaudio_studio.Projects.Invalidation.Reuse.{Keeps, candidate, plan-Keeps, plan_reuses}

abbrev first : Chapter
first = record {
  id = 1;
  project_id = 50;
  ordinal = 1;
  approved_translation_run_id = some 11;
  translation_approved_at = some 3;
  active_voice_plan_id = some 60;
  approved_master_artifact_id = some 21;
  audio_approved_at = some 4;
  last_export_id = some 31;
}

abbrev second : Chapter
second = record {
  id = 2;
  project_id = 50;
  ordinal = 2;
  approved_translation_run_id = none;
  translation_approved_at = none;
  active_voice_plan_id = none;
  approved_master_artifact_id = none;
  audio_approved_at = none;
  last_export_id = none;
}

abbrev speech : ℕ → ℕ → SpeechSegment
speech n chapter = record {
  id = n;
  chapter_id = chapter;
  voice_plan_id = 60;
  segment_index = n;
  translation_segment_id = n;
  role_id = 7;
}

abbrev library : Db
library = record {
  projects = 50 ∷ [];
  voice_plans = 60 ∷ [];
  chapters = first ∷ second ∷ [];
  source_revisions = [];
  translation_runs = record { id = 11; chapter_id = 1; status = run_approved } ∷ [];
  speech_segments = speech 41 1 ∷ speech 42 2 ∷ [];
  artifacts =
      record {
        id = 21;
        chapter_id = some 1;
        kind = master_mp3;
        status = ready;
        speech_segment_id = none;
      }
      ∷ record {
        id = 22;
        chapter_id = some 1;
        kind = tts_segment;
        status = ready;
        speech_segment_id = some 41;
      }
      ∷ record {
        id = 23;
        chapter_id = some 2;
        kind = tts_segment;
        status = ready;
        speech_segment_id = some 42;
      }
      ∷ record {
        id = 24;
        chapter_id = some 1;
        kind = publication_bundle;
        status = ready;
        speech_segment_id = none;
      }
      ∷ [];
  exports =
      record {
        id = 31;
        chapter_id = 1;
        status = export_ready;
        bundle_artifact_id = some 24;
        revoked_at = none;
      }
      ∷ record {
        id = 32;
        chapter_id = 1;
        status = export_failed;
        bundle_artifact_id = none;
        revoked_at = none;
      }
      ∷ [];
}

abbrev new_glossary : Change
new_glossary = record { kind = glossary; affected_ids = 1 ∷ [] }

abbrev new_role : Change
new_role = record { kind = voice_role; affected_ids = 60 ∷ [] }

-- New evidence of rights revokes the export and its bundle, and keeps the audio of both chapters.
abbrev new_rights : Change
new_rights = record { kind = rights_evidence; affected_ids = 50 ∷ [] }

rights_plan :
    (plan 9 new_rights library).0
    ≡ record { reused = 21 ∷ 22 ∷ 23 ∷ []; invalidated = 24 ∷ 31 ∷ []; revoked_exports = 31 ∷ [] }
unfolding plan ready_reused_artifacts apply_change select_where unique_chapters is_in find_where
    insert_by add_id revoke_exports revoke_export supersede_artifact
rights_plan = refl

glossary_plan :
    (plan 9 new_glossary library).0
    ≡ record { reused = []; invalidated = 11 ∷ 21 ∷ 22 ∷ 24 ∷ 31 ∷ []; revoked_exports = 31 ∷ [] }
unfolding plan ready_reused_artifacts apply_change select_where unique_chapters is_in find_where
    invalidate_translation invalidate_master_chain revoke_exports revoke_export supersede_artifact
    add_id invalidate_all_speech_artifacts supersede_speech
glossary_plan = refl

plan_clears_example : Promise glossary 9 1 library (plan 9 new_glossary library).1
unfolding find_where is_in unique_chapters
plan_clears_example = plan_clears 9 new_glossary library 1 refl refl

plan_silences_example :
    All (λ s. Silent s (plan 9 new_role library).1) (changed_speech library voice_role (60 ∷ []))
plan_silences_example = plan_silences 9 new_role library

plan-Keeps_example : Keeps 9 (plan 9 new_glossary library).0 library (plan 9 new_glossary library).1
plan-Keeps_example = plan-Keeps 9 new_glossary library

plan_reuses_example :
    ((x : ℕ)
      → (is_in x (plan 9 new_rights library).0.reused
          && is_in x (plan 9 new_rights library).0.invalidated)
        ≡ false)
    × All
        (λ a.
          is_in a.id (plan 9 new_rights library).0.reused
          ≡ not (is_in a.id (plan 9 new_rights library).0.invalidated))
        (select_where (candidate library new_rights) library.artifacts)
plan_reuses_example = plan_reuses 9 new_rights library
