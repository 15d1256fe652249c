-- ===== src/Translation/DraftStream/Feed.antt =====
-- What a draft stream promises: a feed that keeps the whole text, and the calls of the stream as data.
use truyenaudio_studio.Prelude.{ℕ, true, List, [], ◌∷◌, ◌++◌, ltb, ◌==◌, if◌then◌else◌}
use truyenaudio_studio.Prelude.Lists.{length}
use truyenaudio_studio.Translation.Text.{Text}
use truyenaudio_studio.Translation.DraftStream.{
  StreamStatus, status_draft, status_finished, status_canceled, DeltaFrame, DraftStream, apply,
  apply_segment, close_as, finish, cancel,
}

-- The feed: the whole text, the latest attempt, and whether it is open.
pub record Feed : Type 0 where
  pub whole : Text
  pub attempt : ℕ
  pub state : StreamStatus

abbrev pub new_feed : Feed
new_feed = record { whole = []; attempt = 0; state = status_draft }

-- A frame of an attempt that is not older, at the end of the text, adds its text.
abbrev pub receive : DeltaFrame → Feed → Feed
receive frame feed =
    let later = record feed { attempt = frame.attempt_no } in
    let longer = record feed { attempt = frame.attempt_no; whole = feed.whole ++ frame.text } in
    if ltb frame.attempt_no feed.attempt
    then feed
    else if frame.offset == length feed.whole
    then longer
    else later

abbrev pub receive_in : StreamStatus → DeltaFrame → Feed → Feed
receive_in status_draft frame feed = receive frame feed
receive_in status_finished frame feed = feed
receive_in status_canceled frame feed = feed

pub data Op : Type 0 where
  op_apply : DeltaFrame → Op
  op_segment : ℕ → Text → Op
  op_finish op_cancel : Op

abbrev pub perform : Op → DraftStream → DraftStream
perform (op_apply frame) s = (apply frame s).1
perform (op_segment attempt_no text) s = (apply_segment attempt_no text s).1
perform op_finish s = finish s
perform op_cancel s = cancel s

abbrev pub perform_feed : Op → Feed → Feed
perform_feed (op_apply frame) feed = receive_in feed.state frame feed
perform_feed (op_segment attempt_no text) feed =
    receive_in feed.state
      (record {
        attempt_no = attempt_no;
        offset = length feed.whole;
        text = text;
        is_segment = true;
      })
      feed
perform_feed op_finish feed = record feed { state = close_as status_finished feed.state }
perform_feed op_cancel feed = record feed { state = close_as status_canceled feed.state }

abbrev pub perform_all : List Op → DraftStream → DraftStream
perform_all [] s = s
perform_all (op ∷ ops) s = perform_all ops (perform op s)

abbrev pub feed_all : List Op → Feed → Feed
feed_all [] feed = feed
feed_all (op ∷ ops) feed = feed_all ops (perform_feed op feed)
