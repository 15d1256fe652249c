-- ===== src/Translation/DraftService/Query.antt =====
-- _segment_texts, draft_snapshot and draft_frames of backend/app/modules/translation/draft_service.py over the tables that
-- they read, and stream_draft of backend/app/api/drafts.py. None is the error JOB_NOT_FOUND.
use truyenaudio_studio.Prelude.{
  ℕ, ◌==◌, Bool, true, false, ◌&&◌, ◌||◌, Option, none, some, List, [], ◌∷◌, ltb, leb, opt_eq,
  select_where, find_where,
}
use truyenaudio_studio.Prelude.Order.{sort_by}
use truyenaudio_studio.Projects.Invalidation.Schema.{RunStatus, run_running}
use truyenaudio_studio.Translation.Text.{Text}
use truyenaudio_studio.Translation.Content.{Content, text_eq, get}
use truyenaudio_studio.Translation.Drafts.{WorkspaceDraft, is_in_scope}
use truyenaudio_studio.Translation.DraftStream.{snapshot}
use truyenaudio_studio.Translation.DraftService.{build_stream}
use truyenaudio_studio.Translation.DraftService.Frames.{
  Frame, frames_from, last_frames, DraftSnapshot, StreamEvent, build_stream_events,
}

pub record JobChapter : Type 0 where
  pub id : ℕ
  pub chapter_id : Option ℕ

pub record TranslationRun : Type 0 where
  pub id : ℕ
  pub chapter_id : ℕ
  pub source_revision_id : ℕ
  pub status : RunStatus
  pub created_at : ℕ

pub record SegmentIndex : Type 0 where
  pub id : Text
  pub segment_index : ℕ

pub record TranslationSegment : Type 0 where
  pub id : ℕ
  pub translation_run_id : ℕ
  pub source_segment_id : Text
  pub target_text : Text

pub record Tables : Type 0 where
  pub jobs : List JobChapter
  pub runs : List TranslationRun
  pub source_segments : List SegmentIndex
  pub segments : List TranslationSegment
  pub drafts : List WorkspaceDraft

abbrev pub is_running : RunStatus → Bool
is_running run_running = true
is_running _ = false

-- order_by(created_at.desc(), id.desc())
abbrev pub is_later : TranslationRun → TranslationRun → Bool
is_later a b = ltb b.created_at a.created_at || (a.created_at == b.created_at && leb b.id a.id)

abbrev pub first : {A : Type 0} → List A → Option A
first [] = none
first (x ∷ xs) = some x

-- `_latest_run`
abbrev pub latest_run : Option ℕ → Tables → Option TranslationRun
latest_run chapter_id db =
    first (sort_by is_later (select_where (λ r. opt_eq (some r.chapter_id) chapter_id) db.runs))

-- `_draft_content`
abbrev pub draft_content : ℕ → ℕ → Tables → Content × Option ℕ
draft_content chapter_id base_revision_id db =
    elim (find_where (is_in_scope chapter_id base_revision_id) db.drafts) [
      | none ↦ ([], none)
      | some row ↦ (row.content_json, some row.revision)
    ]

-- A row of the join of segments, with the index that orders it.
pub record JoinedSegment : Type 0 where
  pub segment_index : ℕ
  pub translation_id : ℕ
  pub segment_id : Text
  pub target_text : Text

abbrev pub joined : List SegmentIndex → List TranslationSegment → List JoinedSegment
joined sources [] = []
joined sources (t ∷ ts) =
    let rest = joined sources ts in
    elim (find_where (λ s. text_eq s.id t.source_segment_id) sources) [
      | none ↦ rest
      | some s ↦
          record {
            segment_index = s.segment_index;
            translation_id = t.id;
            segment_id = s.id;
            target_text = t.target_text;
          }
          ∷ rest
    ]

-- order_by(SourceSegment.segment_index, TranslationSegment.id)
abbrev pub comes_first : JoinedSegment → JoinedSegment → Bool
comes_first a b =
    ltb a.segment_index b.segment_index
    || (a.segment_index == b.segment_index && leb a.translation_id b.translation_id)

-- content.get(segment_id, target_text)
abbrev pub overlaid : Content → List JoinedSegment → List Text
overlaid content [] = []
overlaid content (row ∷ rows) = elim (get row.segment_id content) [
  | none ↦ row.target_text ∷ overlaid content rows
  | some text ↦ text ∷ overlaid content rows
]

pub record SegmentTexts : Type 0 where
  pub texts : List Text
  pub run : Option TranslationRun
  pub draft_revision : Option ℕ

-- `_segment_texts` for the run that was found
abbrev pub texts_of_run : Tables → TranslationRun → SegmentTexts
texts_of_run db run =
    let (content, draft_revision) = draft_content run.chapter_id run.source_revision_id db in
    record {
      texts = overlaid content (
          sort_by comes_first (
            joined db.source_segments
              (select_where (λ t. t.translation_run_id == run.id) db.segments)));
      run = some run;
      draft_revision = draft_revision;
    }

unfoldable pub segment_texts : ℕ → Tables → Option SegmentTexts
segment_texts job_id db = elim (find_where (λ j. j.id == job_id) db.jobs) [
  | none ↦ none
  | some job ↦ elim (latest_run job.chapter_id db) [
    | none ↦ some (record { texts = []; run = none; draft_revision = none })
    | some run ↦ some (texts_of_run db run)
  ]
]

abbrev pub running_of : Option TranslationRun → Option Bool
running_of none = none
running_of (some run) = some (is_running run.status)

abbrev pub snapshot_of : Option ℕ → SegmentTexts → DraftSnapshot
snapshot_of after_offset found =
    let stream = build_stream found.texts (running_of found.run) in
    let (offset, text, gap) = snapshot after_offset stream in
    record {
      offset = offset;
      text = text;
      gap = gap;
      status = stream.status;
      truncated = stream.truncated;
      draft_revision = found.draft_revision;
    }

unfoldable pub draft_snapshot : ℕ → Option ℕ → Tables → Option DraftSnapshot
draft_snapshot job_id after_offset db = elim (segment_texts job_id db) [
  | none ↦ none
  | some found ↦ some (snapshot_of after_offset found)
]

abbrev pub frames_of : ℕ → SegmentTexts → List Frame
frames_of max_frames found = elim found.run [
  | none ↦ []
  | some run ↦ last_frames max_frames (frames_from 0 found.texts)
]

unfoldable pub draft_frames : ℕ → ℕ → Tables → Option (List Frame)
draft_frames job_id max_frames db = elim (segment_texts job_id db) [
  | none ↦ none
  | some found ↦ some (frames_of max_frames found)
]

-- The cursor: afterOffset, or the header Last-Event-ID as int reads it, if it does.
abbrev pub cursor_of : Option ℕ → Option (Option ℕ) → Option ℕ
cursor_of (some after_offset) last_event_id = some after_offset
cursor_of none none = none
cursor_of none (some parsed) = parsed

unfoldable pub stream_draft : ℕ → Option (Option ℕ) → Option ℕ → Tables → Option (List StreamEvent)
stream_draft job_id last_event_id after_offset db = elim (draft_frames job_id 1000 db) [
  | none ↦ none
  | some frames ↦ elim (draft_snapshot job_id none db) [
    | none ↦ none
    | some shown ↦ some (build_stream_events frames shown (cursor_of after_offset last_event_id))
  ]
]
