-- ===== src/Translation/DraftService/Resume.antt =====
-- A client that reads the feed of a draft again: stream_draft of backend/app/api/drafts.py.
use truyenaudio_studio.Prelude.{
  ℕ, ◌≤◌, ◌≡◌, refl, sym, ap, ◌∙◌, false, Option, none, some, List, [], ◌∷◌, ◌++◌, Bool-cases, inl,
  inr,
}
use truyenaudio_studio.Prelude.Lists.{length}
use truyenaudio_studio.Translation.Text.{Text, join}
use truyenaudio_studio.Translation.DraftStream.{StreamStatus}
use truyenaudio_studio.Translation.DraftService.{build_stream, build_stream-join}
use truyenaudio_studio.Translation.DraftService.Query.{
  Tables, TranslationRun, SegmentTexts, segment_texts, draft_snapshot, draft_frames, frames_of,
  snapshot_of, stream_draft, running_of, is_running,
}
use truyenaudio_studio.Translation.DraftService.Frames.{
  Frame, frames_from, last_frames, DraftSnapshot, StreamEvent, gap_event, draft_event,
  terminal_event, build_stream_events, draft_events, is_seen, is_gap, appended, has_gap,
  build_stream_events-resume,
}

unfoldable pub terminal_offset : List StreamEvent → Option ℕ
terminal_offset [] = none
terminal_offset (gap_event s ∷ es) = terminal_offset es
terminal_offset (draft_event f ∷ es) = terminal_offset es
terminal_offset (terminal_event offset status ∷ es) = some offset

-- What a client is sent whose text is the first texts of the run.
pub record Resumes (before after : List Text) (events : List StreamEvent) : Type 0 where
  pub no_gap : has_gap events ≡ false
  pub rest : appended events ≡ join after
  pub end : terminal_offset events ≡ some (length (join (before ++ after)))

terminal_offset-draft_events :
    (cursor : Option ℕ) (fs : List Frame) (offset : ℕ) (status : StreamStatus)
    → terminal_offset (draft_events cursor fs ++ terminal_event offset status ∷ []) ≡ some offset
unfolding terminal_offset
terminal_offset-draft_events cursor [] offset status = refl
terminal_offset-draft_events cursor (f ∷ fs) offset status = elim (Bool-cases (is_seen cursor f)) [
  | inl seen ↦ rw seen (terminal_offset-draft_events cursor fs offset status)
  | inr new ↦ rw new (terminal_offset-draft_events cursor fs offset status)
]

terminal_offset-events :
    (fs : List Frame) (shown : DraftSnapshot) (cursor : Option ℕ)
    → terminal_offset (build_stream_events fs shown cursor) ≡ some shown.offset
unfolding build_stream_events terminal_offset
terminal_offset-events fs shown cursor = elim (Bool-cases (is_gap fs shown cursor)) [
  | inl gap ↦ rw gap (terminal_offset-draft_events cursor fs shown.offset shown.status)
  | inr known ↦ rw known (terminal_offset-draft_events cursor fs shown.offset shown.status)
]

-- When the stored texts of a job's latest run are at most 1000, a client that has the first of them, whole, and says so by
-- its afterOffset is sent, without a gap, drafts that together are the other texts, and at the end the length of all texts.
pub stream_draft-Resumes :
    (db : Tables) (job_id : ℕ) (last_event_id : Option (Option ℕ)) (found : SegmentTexts)
    (run : TranslationRun) (before after : List Text)
    → segment_texts job_id db ≡ some found
    → found.run ≡ some run
    → found.texts ≡ before ++ after
    → length (before ++ after) ≤ 1000
    → (events : List StreamEvent) × (stream_draft job_id last_event_id
          (some (length (join before)))
          db
        ≡ some events)
      × Resumes before after events
unfolding stream_draft draft_snapshot draft_frames
stream_draft-Resumes db job_id last_event_id found run before after stored has_run split few =
    let shown : DraftSnapshot = snapshot_of none found in
    let cursor : Option ℕ = some (length (join before)) in
    let events : List StreamEvent = build_stream_events (frames_of 1000 found) shown cursor in
    let frames : frames_of 1000 found ≡ last_frames 1000 (frames_from 0 (before ++ after)) =
      rw (frames_of, has_run) (ap (λ ts. last_frames 1000 (frames_from 0 ts)) split) in
    let same : build_stream_events (last_frames 1000 (frames_from 0 (before ++ after))) shown cursor
        ≡ events =
      ap (λ fs. build_stream_events fs shown cursor) (sym frames) in
    let (rest, quiet, all) = build_stream_events-resume 1000 shown before after few in
    let whole : shown.offset ≡ length (join (before ++ after)) =
      ap (λ r. (build_stream found.texts (running_of r)).offset) has_run
      ∙ ap (λ ts. (build_stream ts (some (is_running run.status))).offset) split
      ∙ (build_stream-join (before ++ after) (is_running run.status)).0 in
    (
      events,
      rw (stream_draft, stored) (rw (draft_snapshot, stored) refl),
      record {
        no_gap = ap has_gap (sym same) ∙ quiet;
        rest = ap appended (sym same) ∙ rest;
        end = terminal_offset-events (frames_of 1000 found) shown cursor ∙ ap some whole;
      },
    )
