-- ===== src/Translation/Resuming.antt =====
-- The feed of the draft of a job, read again.
use truyenaudio_studio.Translation.DraftService.{build_stream}
use truyenaudio_studio.Translation.Content.{get}
use truyenaudio_studio.Prelude.Order.{insert_by}
use truyenaudio_studio.Prelude.{
  ◌≡◌, refl, false, none, some, List, [], ◌∷◌, arith, find_where, select_where,
}
use truyenaudio_studio.Prelude.Lists.{length}
use truyenaudio_studio.Projects.Invalidation.Schema.{run_running, run_approved}
use truyenaudio_studio.Translation.Text.{Text, join}
use truyenaudio_studio.Translation.DraftStream.{status_draft, apply, append_frame, drop}
use truyenaudio_studio.Translation.DraftService.Frames.{
  frames_from, last_frames, DraftSnapshot, StreamEvent, draft_event, terminal_event,
  build_stream_events, appended, has_gap,
}
use truyenaudio_studio.Translation.DraftService.Query.{
  Tables, TranslationRun, SegmentTexts, segment_texts, stream_draft, draft_frames, draft_snapshot,
}
use truyenaudio_studio.Translation.DraftService.Resume.{Resumes, stream_draft-Resumes}

abbrev old_run : TranslationRun
old_run = record {
  id = 5;
  chapter_id = 1;
  source_revision_id = 2;
  status = run_approved;
  created_at = 10;
}

abbrev new_run : TranslationRun
new_run = record {
  id = 6;
  chapter_id = 1;
  source_revision_id = 2;
  status = run_running;
  created_at = 20;
}

-- Two segments of the new run, and a draft of the second.
abbrev tables : Tables
tables = record {
  jobs = record { id = 9; chapter_id = some 1 } ∷ [];
  runs = old_run ∷ new_run ∷ [];
  source_segments =
      record { id = 98 ∷ []; segment_index = 1 } ∷ record { id = 97 ∷ []; segment_index = 0 } ∷ [];
  segments =
      record { id = 31; translation_run_id = 6; source_segment_id = 98 ∷ []; target_text = [] }
      ∷ record {
        id = 32;
        translation_run_id = 6;
        source_segment_id = 97 ∷ [];
        target_text = 104 ∷ 105 ∷ [];
      }
      ∷ record {
        id = 33;
        translation_run_id = 5;
        source_segment_id = 97 ∷ [];
        target_text = 120 ∷ [];
      }
      ∷ [];
  drafts =
      record {
        id = 1;
        project_id = 1;
        chapter_id = 1;
        base_revision_id = 2;
        content_json = record { segment_id = 98 ∷ []; text = 33 ∷ [] } ∷ [];
        revision = 4;
      }
      ∷ [];
}

abbrev found_texts : SegmentTexts
found_texts = record {
  texts = (104 ∷ 105 ∷ []) ∷ (33 ∷ []) ∷ [];
  run = some new_run;
  draft_revision = some 4;
}

segment_texts_run : segment_texts 9 tables ≡ some found_texts
unfolding segment_texts find_where select_where insert_by get
segment_texts_run = refl

stream_draft_run :
    stream_draft 9 none (some 2) tables
    ≡ some
        (draft_event (record { offset = 3; text = 33 ∷ [] }) ∷ terminal_event 3 status_draft ∷ [])
unfolding stream_draft draft_frames segment_texts find_where select_where insert_by draft_snapshot
    build_stream_events get build_stream apply append_frame
stream_draft_run = refl

stream_draft_unknown : stream_draft 8 none none tables ≡ none
unfolding stream_draft draft_frames segment_texts find_where
stream_draft_unknown = refl

-- Of more frames than the limit the first are lost: a client without a cursor is sent no gap, and not the whole text.
abbrev three : List Text
three = (97 ∷ []) ∷ (98 ∷ []) ∷ (99 ∷ []) ∷ []

abbrev shown : DraftSnapshot
shown = record {
  offset = 3;
  text = 97 ∷ 98 ∷ 99 ∷ [];
  gap = false;
  status = status_draft;
  truncated = false;
  draft_revision = none;
}

first_frame_lost :
    appended (build_stream_events (last_frames 2 (frames_from 0 three)) shown none) ≡ 98 ∷ 99 ∷ []
unfolding appended build_stream_events drop
first_frame_lost = refl

loss_unnoticed :
    has_gap (build_stream_events (last_frames 2 (frames_from 0 three)) shown none) ≡ false
unfolding has_gap build_stream_events drop
loss_unnoticed = refl

stream_draft-Resumes_example :
    (events : List StreamEvent) × (stream_draft 9 none
        (some (length (join ((104 ∷ 105 ∷ []) ∷ []))))
        tables
      ≡ some events)
    × Resumes ((104 ∷ 105 ∷ []) ∷ []) ((33 ∷ []) ∷ []) events
stream_draft-Resumes_example =
    stream_draft-Resumes tables 9 none found_texts new_run ((104 ∷ 105 ∷ []) ∷ []) ((33 ∷ []) ∷ [])
      segment_texts_run refl refl (omega arith)
