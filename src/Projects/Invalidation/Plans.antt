-- ===== src/Projects/Invalidation/Plans.antt =====
-- InvalidationGraph.plan of backend/app/modules/projects/invalidation.py.
use truyenaudio_studio.Prelude.{ℕ, ◌≡◌, refl, true, List, [], All, All-map, is_some}
use truyenaudio_studio.Prelude.Sets.{is_in}
use truyenaudio_studio.Projects.Invalidation.Schema.{
  Change, ChangeKind, source_revision, project_metadata, glossary, story_memory, target_text,
  pronunciation, voice_role, master_settings, rights_evidence, Chapter, SpeechSegment, Db,
}
use truyenaudio_studio.Projects.Invalidation.Queries.{
  chapters_for_source_revisions, chapters_for_projects_or_chapters, speech_for_translation_segments,
  speech_for_speech_or_chapter, speech_for_voice_roles, changed_chapter_ids, get_chapter,
  chapter_ids, segment_chapter_ids,
}
use truyenaudio_studio.Projects.Invalidation.Graph.{
  Graph, for_each, new_graph, revoke_exports, invalidate_master_chain, supersede_speech,
  chapters_of_speech, invalidate_speech_segments, invalidate_translation, apply_change, plan,
}
use truyenaudio_studio.Projects.Invalidation.Later.{Later, Later-refl, Later-for_each}
use truyenaudio_studio.Projects.Invalidation.Stages.{
  revoke_exports-Later, invalidate_master_chain-Later, supersede_speech-Later,
  invalidate_translation-Later,
}
use truyenaudio_studio.Projects.Invalidation.Moves.{for_each_does}
use truyenaudio_studio.Projects.Invalidation.Clears.{
  ExportsRevoked, MastersCleared, Silent, TranslationCleared, ExportsRevoked-kept,
  MastersCleared-kept, Silent-kept, TranslationCleared-kept,
}
use truyenaudio_studio.Projects.Invalidation.Revokes.{
  revoke_exports_revokes, invalidate_master_chain_clears, each_speech_silences,
  invalidate_translation_clears,
}
use truyenaudio_studio.Projects.Invalidation.Speech.{of_chapter, chapters_of_speech_found}

-- What a change of the kind promises of each chapter that it changes.
abbrev pub Promise : ChangeKind → ℕ → ℕ → Db → Db → Type 0
Promise source_revision now chapter_id stored after = TranslationCleared now chapter_id stored after
Promise project_metadata now chapter_id stored after =
    TranslationCleared now chapter_id stored after
Promise glossary now chapter_id stored after = TranslationCleared now chapter_id stored after
Promise story_memory now chapter_id stored after = TranslationCleared now chapter_id stored after
Promise rights_evidence now chapter_id stored after = ExportsRevoked chapter_id after
Promise _ now chapter_id stored after = MastersCleared chapter_id after

-- The speech segments that a change of the kind names.
abbrev pub changed_speech : Db → ChangeKind → List ℕ → List SpeechSegment
changed_speech stored target_text ids = speech_for_translation_segments stored ids
changed_speech stored pronunciation ids = speech_for_speech_or_chapter stored ids
changed_speech stored voice_role ids = speech_for_voice_roles stored ids
changed_speech stored _ ids = []

module _ (stored : Db) (now : ℕ) where
  abbrev Start : Graph
  Start = new_graph stored now

  each_translation :
      (cs : List Chapter)
      → All
          (λ c.
            TranslationCleared now c.id stored
              (for_each (λ x. invalidate_translation stored now x.id) cs Start).current)
          cs
  each_translation cs =
      for_each_does now Start (λ x. invalidate_translation stored now x.id)
        (λ c g. TranslationCleared now c.id stored g.current)
        (λ c. invalidate_translation-Later stored now c.id)
        (λ c. TranslationCleared-kept now stored c.id)
        (λ c. invalidate_translation_clears stored now c.id) cs Start (Later-refl now Start)

  each_master :
      (cs : List Chapter) (g : Graph)
      → Later now Start g
      → All
          (λ c.
            MastersCleared c.id
              (for_each (λ x. invalidate_master_chain stored now x.id) cs g).current)
          cs
  each_master cs g later =
      for_each_does now Start (λ x. invalidate_master_chain stored now x.id)
        (λ c g. MastersCleared c.id g.current) (λ c. invalidate_master_chain-Later stored now c.id)
        (λ c. MastersCleared-kept now c.id) (λ c. invalidate_master_chain_clears stored now c.id) cs
        g later

  each_export :
      (cs : List Chapter)
      → All
          (λ c.
            ExportsRevoked c.id (for_each (λ x. revoke_exports stored now x.id) cs Start).current)
          cs
  each_export cs =
      for_each_does now Start (λ x. revoke_exports stored now x.id)
        (λ c g. ExportsRevoked c.id g.current) (λ c. revoke_exports-Later stored now c.id)
        (λ c. ExportsRevoked-kept now c.id) (λ c. revoke_exports_revokes stored now c.id) cs Start
        (Later-refl now Start)

  translations_clear :
      (chapter_id : ℕ) (cs : List Chapter)
      → is_in chapter_id (chapter_ids stored cs) ≡ true
      → TranslationCleared now chapter_id stored
          (for_each (λ x. invalidate_translation stored now x.id) cs Start).current
  translations_clear chapter_id cs h =
      of_chapter
        (λ c.
          TranslationCleared now c stored
            (for_each (λ x. invalidate_translation stored now x.id) cs Start).current)
        stored chapter_id cs h (each_translation cs)

  masters_clear :
      (chapter_id : ℕ) (cs : List Chapter) (g : Graph)
      → Later now Start g
      → is_in chapter_id (chapter_ids stored cs) ≡ true
      → MastersCleared chapter_id
          (for_each (λ x. invalidate_master_chain stored now x.id) cs g).current
  masters_clear chapter_id cs g later h =
      of_chapter
        (λ c.
          MastersCleared c (for_each (λ x. invalidate_master_chain stored now x.id) cs g).current)
        stored chapter_id cs h (each_master cs g later)

  speech_clears :
      (chapter_id : ℕ) (ss : List SpeechSegment)
      → is_some (get_chapter stored chapter_id) ≡ true
      → is_in chapter_id (segment_chapter_ids stored ss) ≡ true
      → MastersCleared chapter_id (invalidate_speech_segments stored now ss Start).current
  unfolding invalidate_speech_segments is_in
  speech_clears chapter_id ss exists h =
      masters_clear chapter_id (chapters_of_speech stored now [] ss)
        (for_each (supersede_speech stored now) ss Start)
        (Later-for_each now (supersede_speech stored now) (supersede_speech-Later stored now) ss
          Start)
        (chapters_of_speech_found stored now chapter_id [] ss exists h refl)

  speech-Silent :
      (ss : List SpeechSegment)
      → All (λ s. Silent s (invalidate_speech_segments stored now ss Start).current) ss
  unfolding invalidate_speech_segments
  speech-Silent ss =
      let silent : Graph = for_each (supersede_speech stored now) ss Start in
      let chain : Chapter → Graph → Graph = λ c. invalidate_master_chain stored now c.id in
      let final : Graph = for_each chain (chapters_of_speech stored now [] ss) silent in
      All-map (λ s. Silent s silent.current) (λ s. Silent s final.current) ss
        (λ s. Silent-kept now s silent final (
          Later-for_each now chain (λ c. invalidate_master_chain-Later stored now c.id)
            (chapters_of_speech stored now [] ss) silent))
        (each_speech_silences stored now ss Start (Later-refl now Start))

  change_clears :
      (kind : ChangeKind) (ids : List ℕ) (chapter_id : ℕ)
      → is_some (get_chapter stored chapter_id) ≡ true
      → is_in chapter_id (changed_chapter_ids stored kind ids) ≡ true
      → Promise kind now chapter_id stored (apply_change stored now kind ids Start).current
  unfolding apply_change
  change_clears source_revision ids chapter_id exists h =
      translations_clear chapter_id (chapters_for_source_revisions stored ids) h
  change_clears project_metadata ids chapter_id exists h =
      translations_clear chapter_id (chapters_for_projects_or_chapters stored ids) h
  change_clears glossary ids chapter_id exists h =
      translations_clear chapter_id (chapters_for_projects_or_chapters stored ids) h
  change_clears story_memory ids chapter_id exists h =
      translations_clear chapter_id (chapters_for_projects_or_chapters stored ids) h
  change_clears target_text ids chapter_id exists h =
      speech_clears chapter_id (speech_for_translation_segments stored ids) exists h
  change_clears pronunciation ids chapter_id exists h =
      speech_clears chapter_id (speech_for_speech_or_chapter stored ids) exists h
  change_clears voice_role ids chapter_id exists h =
      speech_clears chapter_id (speech_for_voice_roles stored ids) exists h
  change_clears master_settings ids chapter_id exists h =
      masters_clear chapter_id (chapters_for_projects_or_chapters stored ids) Start
        (Later-refl now Start) h
  change_clears rights_evidence ids chapter_id exists h =
      let cs : List Chapter = chapters_for_projects_or_chapters stored ids in
      of_chapter
        (λ c. ExportsRevoked c (for_each (λ x. revoke_exports stored now x.id) cs Start).current)
        stored chapter_id cs h (each_export cs)

  change_silences :
      (kind : ChangeKind) (ids : List ℕ)
      → All
          (λ s. Silent s (apply_change stored now kind ids Start).current)
          (changed_speech stored kind ids)
  unfolding apply_change
  change_silences target_text ids = speech-Silent (speech_for_translation_segments stored ids)
  change_silences pronunciation ids = speech-Silent (speech_for_speech_or_chapter stored ids)
  change_silences voice_role ids = speech-Silent (speech_for_voice_roles stored ids)
  change_silences source_revision ids = tt
  change_silences project_metadata ids = tt
  change_silences glossary ids = tt
  change_silences story_memory ids = tt
  change_silences master_settings ids = tt
  change_silences rights_evidence ids = tt

-- After the plan for a change, each stored chapter that the change affects keeps the promise of the change's kind: no
-- export of it is READY and it names no last export; but for rights evidence, no MP3 or subtitle of it is READY and its
-- audio is not approved; for a source revision, project metadata, a glossary and story memory, also no translation run
-- of it is APPROVED or in REVIEW, its translation and voice plan are not approved, and no audio of its speech segments is
-- READY.
pub plan_clears :
    (now : ℕ) (change : Change) (stored : Db) (chapter_id : ℕ)
    → is_some (get_chapter stored chapter_id) ≡ true
    → is_in chapter_id (changed_chapter_ids stored change.kind change.affected_ids) ≡ true
    → Promise change.kind now chapter_id stored (plan now change stored).1
unfolding plan
plan_clears now change stored chapter_id exists h =
    change_clears stored now change.kind change.affected_ids chapter_id exists h

-- After the plan for a change of target text, pronunciation or voice roles, no audio of a speech segment that the change
-- names is READY.
pub plan_silences :
    (now : ℕ) (change : Change) (stored : Db)
    → All
        (λ s. Silent s (plan now change stored).1)
        (changed_speech stored change.kind change.affected_ids)
unfolding plan
plan_silences now change stored = change_silences stored now change.kind change.affected_ids
