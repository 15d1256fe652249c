-- ===== src/Translation/Streaming.antt =====
-- Runs of the drafts and of the sink.
use truyenaudio_studio.Translation.Normalize.{rstrip}
use truyenaudio_studio.Prelude.{
  ℕ, suc, ◌+◌, ◌≡◌, refl, true, false, none, some, List, [], ◌∷◌, arith, find_where,
}
use truyenaudio_studio.Translation.Text.{Text, has_text, is_space}
use truyenaudio_studio.Translation.Content.{Content, ok, strip, normalize_from, put, lstrip, get}
use truyenaudio_studio.Translation.DraftStream.{new_stream}
use truyenaudio_studio.Translation.DraftStream.Feed.{
  Op, op_apply, op_segment, op_finish, new_feed, perform_all, feed_all,
}
use truyenaudio_studio.Translation.DraftStream.Refines.{Refines, perform_all-Refines}
use truyenaudio_studio.Translation.Drafts.{
  Db, DraftView, save_draft, restore_draft, append_draft_delta, require_scope, load, add_row,
  is_of_revision, apply_delta, update_row,
}
use truyenaudio_studio.Translation.Drafts.Saving.{
  is_ok, or_zero, save_draft-restores, save_draft-once,
}
use truyenaudio_studio.Translation.Drafts.Stream.{
  Kept, IsStoredDict, is_applied, append_draft_delta-again,
}
use truyenaudio_studio.Translation.Sink.{Sink, Delta, emitted, streamed}
use truyenaudio_studio.Translation.Sink.Delivery.{
  starts_with, stored, revision_number, deliver, deliver-revision,
}
use truyenaudio_studio.Translation.Sink.Streams.{
  all_return, emitted_all, streams-prefix, stream_complete,
}

abbrev size : Content → ℕ
size content = 100

abbrev library : Db
library = record {
  chapters = record { id = 1; project_id = 7 } ∷ [];
  source_revisions = record { id = 3; chapter_id = 1 } ∷ [];
  source_segments = record { id = 97 ∷ []; source_revision_id = 3 } ∷ [];
  workspace_drafts = [];
}

-- The key has white space round it.
abbrev edited : Content
edited = record { segment_id = 32 ∷ 97 ∷ 32 ∷ []; text = 104 ∷ 105 ∷ [] } ∷ []

abbrev saved_view : DraftView
saved_view = record {
  id = 9;
  project_id = 7;
  chapter_id = 1;
  base_revision_id = 3;
  content = record { segment_id = 97 ∷ []; text = 104 ∷ 105 ∷ [] } ∷ [];
  revision = 1;
}

save_run : (save_draft size 1 3 edited none 9 library).0 ≡ ok saved_view
unfolding save_draft require_scope find_where normalize_from has_text is_space put rstrip lstrip
    load add_row
save_run = refl

save_draft-restores_example :
    (restore_draft 1 3 ((save_draft size 1 3 edited none 9 library).1) ≡ some saved_view)
    × (saved_view.revision ≡ suc (or_zero none))
save_draft-restores_example =
    save_draft-restores size 1 3 edited none 9 library {saved = saved_view} save_run

abbrev after_save : Db
after_save = (save_draft size 1 3 edited none 9 library).1

save_draft-once_example :
    (is_ok ((save_draft size 1 3 [] none 10 after_save).0) ≡ false)
    × ((save_draft size 1 3 [] none 10 after_save).1 ≡ after_save)
save_draft-once_example =
    save_draft-once size 1 3 edited [] none 9 10 library {saved = saved_view} save_run

abbrev sink : Sink
sink = record { applied_count = 0; duplicates = 0; gaps = 0 }

abbrev first_stream : List Delta
first_stream =
    record { text = 104 ∷ 101 ∷ []; new_id = 9 }
    ∷ record { text = []; new_id = 9 }
    ∷ record { text = 121 ∷ []; new_id = 9 }
    ∷ []

abbrev second_stream : List Delta
second_stream =
    record { text = 104 ∷ []; new_id = 9 } ∷ record { text = 101 ∷ 121 ∷ []; new_id = 9 } ∷ []

abbrev streamed_text : Text
streamed_text = 104 ∷ 101 ∷ 121 ∷ []

stripped_run : strip (97 ∷ []) ≡ 97 ∷ []
unfolding rstrip lstrip is_space
stripped_run = refl

nothing_stored : stored size 1 3 (97 ∷ []) library ≡ []
unfolding load find_where
nothing_stored = refl

has_dict : IsStoredDict size 1 3 (97 ∷ []) library
unfolding load find_where
has_dict = tt

applied_run :
    is_applied size 1 3
      (97 ∷ [])
      ((append_draft_delta size 1 3 (97 ∷ []) (104 ∷ []) (some 0) 9 library).0)
    ≡ true
unfolding append_draft_delta require_scope find_where is_of_revision load apply_delta normalize_from
    put has_text is_space add_row
applied_run = refl

append_draft_delta-again_example :
    Kept size 1 3
      (97 ∷ [])
      ((append_draft_delta size 1 3 (97 ∷ []) (104 ∷ []) (some 0) 9 library).1)
      (append_draft_delta size 1 3
        (97 ∷ [])
        (105 ∷ [])
        (some 0)
        8
        ((append_draft_delta size 1 3 (97 ∷ []) (104 ∷ []) (some 0) 9 library).1))
append_draft_delta-again_example =
    append_draft_delta-again size 1 3 (97 ∷ []) (104 ∷ []) (105 ∷ []) 0 9 8 library stripped_run
      has_dict applied_run

start_run : starts_with (stored size 1 3 (97 ∷ []) library) streamed_text ≡ true
unfolding starts_with load find_where
start_run = refl

streams-prefix_example :
    starts_with
      (stored size 1 3 (97 ∷ []) (
        (deliver size 1 3
          (97 ∷ [])
          (emitted_all (first_stream ∷ second_stream ∷ []))
          sink
          library).1))
      streamed_text
    ≡ true
streams-prefix_example =
    streams-prefix size 1 3 (97 ∷ []) streamed_text (first_stream ∷ second_stream ∷ []) sink library
      stripped_run has_dict (refl, (refl, tt)) start_run

deliver-revision_example :
    revision_number size 1 3 (97 ∷ []) (
        (deliver size 1 3
          (97 ∷ [])
          (emitted_all (first_stream ∷ second_stream ∷ []))
          sink
          library).1)
      + 0
    ≡ revision_number size 1 3 (97 ∷ []) library
      + ((deliver size 1 3
          (97 ∷ [])
          (emitted_all (first_stream ∷ second_stream ∷ []))
          sink
          library).0
        ).applied_count
deliver-revision_example =
    deliver-revision size 1 3 (97 ∷ []) (emitted_all (first_stream ∷ second_stream ∷ [])) sink
      library stripped_run has_dict

all_return_run : all_return size 1 3 (97 ∷ []) (emitted [] first_stream) library ≡ true
unfolding emitted append_draft_delta require_scope find_where is_of_revision load apply_delta
    normalize_from put has_text is_space add_row get rstrip lstrip update_row
all_return_run = refl

stream_complete_example :
    stored size 1 3
      (97 ∷ [])
      ((deliver size 1 3 (97 ∷ []) (emitted [] first_stream) sink library).1)
    ≡ streamed first_stream
stream_complete_example =
    stream_complete size 1 3 (97 ∷ []) first_stream sink library stripped_run has_dict
      nothing_stored all_return_run

-- A frame, the frame again, one of an older attempt, one behind a gap, a whole segment, and one after the end.
abbrev calls : List Op
calls =
    op_apply (record { attempt_no = 2; offset = 0; text = 104 ∷ 101 ∷ []; is_segment = false })
    ∷ op_apply (record { attempt_no = 2; offset = 0; text = 104 ∷ 101 ∷ []; is_segment = false })
    ∷ op_apply (record { attempt_no = 1; offset = 2; text = 120 ∷ []; is_segment = false })
    ∷ op_apply (record { attempt_no = 2; offset = 7; text = 120 ∷ []; is_segment = false })
    ∷ op_segment 2 (121 ∷ 33 ∷ [])
    ∷ op_finish
    ∷ op_apply (record { attempt_no = 3; offset = 4; text = 120 ∷ []; is_segment = false })
    ∷ []

perform_all-Refines_example :
    Refines 1 3 (perform_all calls (new_stream 1 3)) (feed_all calls new_feed)
perform_all-Refines_example = perform_all-Refines 1 3 calls (omega arith)
