-- ===== src/Translation/DraftService.antt =====
-- backend/app/modules/translation/draft_service.py: the stream that is rebuilt from stored texts.
pub mod Frames
pub mod Query
pub mod Resume
use mathlib.Core.List.{append_assoc, append-nil}
use truyenaudio_studio.Prelude.{
  ℕ, ◌≤◌, ◌==◌, ◌≡◌, refl, sym, ap, ◌∙◌, subst, Bool, true, false, Option, none, some, List, [],
  ◌∷◌, ◌++◌, ltb, if◌then◌else◌, arith,
}
use truyenaudio_studio.Prelude.Lists.{length}
use truyenaudio_studio.Translation.Text.{Text, join}
use truyenaudio_studio.Translation.DraftStream.{
  DraftStream, StreamStatus, status_draft, status_finished, new_stream, apply_segment, finish,
  close_as, bound_text,
}
use truyenaudio_studio.Translation.DraftStream.Feed.{
  Feed, new_feed, Op, op_segment, perform_feed, perform_all, feed_all,
}
use truyenaudio_studio.Translation.DraftStream.Refines.{Refines, perform_all-Refines}

-- MAX_FRAMES and MAX_CHARS
abbrev pub default_frames : ℕ
default_frames = 1000

abbrev pub default_chars : ℕ
default_chars = 200000

abbrev pub apply_segments : List Text → DraftStream → DraftStream
apply_segments [] s = s
apply_segments (text ∷ texts) s = apply_segments texts ((apply_segment 1 text s).1)

-- `_build_stream`; the run, if there is one, is running or not.
unfoldable pub build_stream : List Text → Option Bool → DraftStream
build_stream texts none = new_stream default_frames default_chars
build_stream texts (some is_running) =
    let stream = apply_segments texts (new_stream default_frames default_chars) in
    if is_running then stream else finish stream

segment_ops : List Text → List Op
segment_ops [] = []
segment_ops (text ∷ texts) = op_segment 1 text ∷ segment_ops texts

perform_all-segments :
    (texts : List Text) (s : DraftStream)
    → perform_all (segment_ops texts) s ≡ apply_segments texts s
unfolding segment_ops
perform_all-segments [] s = refl
perform_all-segments (text ∷ texts) s = perform_all-segments texts ((apply_segment 1 text s).1)

abbrev open_feed : Text → ℕ → Feed
open_feed whole attempt = record { whole = whole; attempt = attempt; state = status_draft }

feed_segment :
    (whole text : Text) (attempt : ℕ)
    → attempt ≤ 1
    → perform_feed (op_segment 1 text) (open_feed whole attempt) ≡ open_feed (whole ++ text) 1
feed_segment whole text attempt h =
    let fresh : ltb 1 attempt ≡ false = ground (arith, h) in
    let end : (length whole == length whole) ≡ true = ground arith in rw fresh (rw end refl)

feed_all-segments :
    (texts : List Text) (whole : Text) (attempt : ℕ)
    → attempt ≤ 1
    → ((feed_all (segment_ops texts) (open_feed whole attempt)).whole ≡ whole ++ join texts)
      × ((feed_all (segment_ops texts) (open_feed whole attempt)).state ≡ status_draft)
unfolding segment_ops
feed_all-segments [] whole attempt h = (sym (append-nil whole), refl)
feed_all-segments (text ∷ texts) whole attempt h =
    let step = feed_segment whole text attempt h in
    let (text_rest, state_rest) = feed_all-segments texts (whole ++ text) 1 (omega arith) in
    (
      ap (λ f. (feed_all (segment_ops texts) f).whole) step
          ∙ text_rest
          ∙ append_assoc whole text (join texts),
      ap (λ f. (feed_all (segment_ops texts) f).state) step ∙ state_rest,
    )

segments-Refines :
    (texts : List Text)
    → Refines default_frames default_chars
        (apply_segments texts (new_stream default_frames default_chars))
        (feed_all (segment_ops texts) new_feed)
segments-Refines texts =
    subst (λ s. Refines default_frames default_chars s (feed_all (segment_ops texts) new_feed))
      (perform_all-segments texts (new_stream default_frames default_chars))
      (perform_all-Refines default_frames default_chars (segment_ops texts) (omega arith))

abbrev Shows : Text → StreamStatus → DraftStream → Type 0
Shows whole status s =
    (s.offset ≡ length whole) × (s.text ≡ bound_text default_chars whole) × (s.status ≡ status)

segments-Shows :
    (texts : List Text)
    → Shows
        (join texts)
        status_draft
        (apply_segments texts (new_stream default_frames default_chars))
segments-Shows texts =
    let r = segments-Refines texts in
    let (whole, state) = feed_all-segments texts [] 0 (omega arith) in
    (
      r.same_offset ∙ ap length whole,
      r.same_text ∙ ap (bound_text default_chars) whole,
      r.same_status ∙ state,
    )

-- The stream that is rebuilt for a run from the texts of its segments has as its offset the length of the joined texts, as
-- its text the last 200,000 characters of them, and it is open while the run is running and finished otherwise.
pub build_stream-join :
    (texts : List Text) (is_running : Bool)
    → ((build_stream texts (some is_running)).offset ≡ length (join texts))
      × ((build_stream texts (some is_running)).text ≡ bound_text default_chars (join texts))
      × ((build_stream texts (some is_running)).status
          ≡ (if is_running then status_draft else status_finished))
unfolding build_stream
build_stream-join texts true = segments-Shows texts
build_stream-join texts false =
    let (offset, text, status) = segments-Shows texts in
    (offset, text, ap (close_as status_finished) status)
