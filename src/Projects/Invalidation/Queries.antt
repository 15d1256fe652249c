-- ===== src/Projects/Invalidation/Queries.antt =====
-- The queries of InvalidationGraph.
use truyenaudio_studio.Prelude.{
  ℕ, Bool, ◌||◌, ◌&&◌, Option, none, some, List, [], ◌∷◌, ◌++◌, ltb, leb, ◌==◌, if◌then◌else◌,
  is_some, select_where, find_where,
}
use truyenaudio_studio.Prelude.Sets.{is_in, add_id}
use truyenaudio_studio.Prelude.Order.{sort_by}
use truyenaudio_studio.Projects.Invalidation.Schema.{
  ChangeKind, source_revision, project_metadata, glossary, story_memory, target_text, pronunciation,
  voice_role, master_settings, rights_evidence, Chapter, SpeechSegment, Db,
}

-- `_unique_by_id`
unfoldable pub unique_chapters : List ℕ → List Chapter → List Chapter
unique_chapters seen [] = []
unique_chapters seen (c ∷ cs) =
    let rest = unique_chapters (if is_in c.id seen then seen else add_id c.id seen) cs in
    if is_in c.id seen then rest else c ∷ rest

unfoldable pub unique_segments : List ℕ → List SpeechSegment → List SpeechSegment
unique_segments seen [] = []
unique_segments seen (s ∷ ss) =
    let rest = unique_segments (if is_in s.id seen then seen else add_id s.id seen) ss in
    if is_in s.id seen then rest else s ∷ rest

-- order_by(Chapter.ordinal, Chapter.id)
abbrev pub chapter_leb : Chapter → Chapter → Bool
chapter_leb a b = ltb a.ordinal b.ordinal || (a.ordinal == b.ordinal && leb a.id b.id)

-- order_by(SpeechSegment.segment_index, SpeechSegment.id)
abbrev pub segment_leb : SpeechSegment → SpeechSegment → Bool
segment_leb a b =
    ltb a.segment_index b.segment_index || (a.segment_index == b.segment_index && leb a.id b.id)

module _ (stored : Db) where
  abbrev pub get_chapter : ℕ → Option Chapter
  get_chapter chapter_id = find_where (λ c. c.id == chapter_id) stored.chapters

  abbrev pub add_chapter : Option Chapter → List Chapter → List Chapter
  add_chapter none chapters = chapters
  add_chapter (some c) chapters = c ∷ chapters

  abbrev pub chapters_of_revisions : List ℕ → List Chapter
  chapters_of_revisions [] = []
  chapters_of_revisions (revision_id ∷ ids) =
      elim (find_where (λ r. r.id == revision_id) stored.source_revisions) [
        | none ↦ chapters_of_revisions ids
        | some revision ↦ add_chapter (get_chapter revision.chapter_id) (chapters_of_revisions ids)
      ]

  abbrev pub chapters_for_source_revisions : List ℕ → List Chapter
  chapters_for_source_revisions ids = unique_chapters [] (chapters_of_revisions ids)

  abbrev pub chapters_of : List ℕ → List Chapter
  chapters_of [] = []
  chapters_of (affected_id ∷ ids) = elim (get_chapter affected_id) [
    | some chapter ↦ chapter ∷ chapters_of ids
    | none ↦
        if is_in affected_id stored.projects
        then sort_by chapter_leb (select_where (λ c. c.project_id == affected_id) stored.chapters)
          ++ chapters_of ids
        else chapters_of ids
  ]

  abbrev pub chapters_for_projects_or_chapters : List ℕ → List Chapter
  chapters_for_projects_or_chapters ids = unique_chapters [] (chapters_of ids)

  abbrev pub speech_for_translation_segments : List ℕ → List SpeechSegment
  speech_for_translation_segments ids =
      sort_by segment_leb
        (select_where (λ s. is_in s.translation_segment_id ids) stored.speech_segments)

  abbrev pub speech_of : List ℕ → List SpeechSegment
  speech_of [] = []
  speech_of (affected_id ∷ ids) =
      elim (find_where (λ s. s.id == affected_id) stored.speech_segments) [
        | some speech ↦ speech ∷ speech_of ids
        | none ↦
            if is_some (get_chapter affected_id)
            then sort_by segment_leb
                (select_where (λ s. s.chapter_id == affected_id) stored.speech_segments)
              ++ speech_of ids
            else speech_of ids
      ]

  abbrev pub speech_for_speech_or_chapter : List ℕ → List SpeechSegment
  speech_for_speech_or_chapter ids = unique_segments [] (speech_of ids)

  abbrev pub speech_for_voice_roles : List ℕ → List SpeechSegment
  speech_for_voice_roles ids = unique_segments [] (
      sort_by segment_leb (select_where (λ s. is_in s.role_id ids) stored.speech_segments)
      ++ sort_by segment_leb (
          select_where (λ s. is_in s.voice_plan_id ids && is_in s.voice_plan_id stored.voice_plans)
            stored.speech_segments))

  abbrev pub chapter_ids : List Chapter → List ℕ
  chapter_ids [] = []
  chapter_ids (c ∷ cs) = c.id ∷ chapter_ids cs

  abbrev pub segment_chapter_ids : List SpeechSegment → List ℕ
  segment_chapter_ids [] = []
  segment_chapter_ids (s ∷ ss) = s.chapter_id ∷ segment_chapter_ids ss

  -- `_changed_chapter_ids`
  abbrev pub changed_chapter_ids : ChangeKind → List ℕ → List ℕ
  changed_chapter_ids source_revision ids = chapter_ids (chapters_for_source_revisions ids)
  changed_chapter_ids project_metadata ids = chapter_ids (chapters_for_projects_or_chapters ids)
  changed_chapter_ids glossary ids = chapter_ids (chapters_for_projects_or_chapters ids)
  changed_chapter_ids story_memory ids = chapter_ids (chapters_for_projects_or_chapters ids)
  changed_chapter_ids master_settings ids = chapter_ids (chapters_for_projects_or_chapters ids)
  changed_chapter_ids rights_evidence ids = chapter_ids (chapters_for_projects_or_chapters ids)
  changed_chapter_ids target_text ids = segment_chapter_ids (speech_for_translation_segments ids)
  changed_chapter_ids pronunciation ids = segment_chapter_ids (speech_for_speech_or_chapter ids)
  changed_chapter_ids voice_role ids = segment_chapter_ids (speech_for_voice_roles ids)
