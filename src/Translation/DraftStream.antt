-- ===== src/Translation/DraftStream.antt =====
-- backend/app/modules/translation/draft_stream.py. A text and a list of frames are bounded; numbers are naturals.
pub mod Bounded
pub mod Feed
pub mod Refines
use truyenaudio_studio.Prelude.{
  ℕ, zero, suc, ◌+◌, ◌-◌, Bool, true, false, ◌||◌, Option, none, some, List, [], ◌∷◌, ◌++◌, ltb,
  ◌==◌, if◌then◌else◌,
}
use truyenaudio_studio.Prelude.Lists.{length}
use truyenaudio_studio.Translation.Text.{Text}
use truyenaudio_studio.Translation.Drafts.{AppendStatus, applied, duplicate, gap}

pub data StreamStatus : Type 0 where
  status_draft status_finished status_canceled : StreamStatus

pub record DeltaFrame : Type 0 where
  pub attempt_no : ℕ
  pub offset : ℕ
  pub text : Text
  pub is_segment : Bool

pub record ApplyResult : Type 0 where
  pub status : AppendStatus
  pub offset : ℕ
  pub text : Text

-- What `apply` returns, or DraftStreamClosed.
pub data Applying : Type 0 where
  returns : ApplyResult → Applying
  draft_stream_closed : StreamStatus → Applying

pub record DraftStream : Type 0 where
  pub max_frames : ℕ
  pub max_chars : ℕ
  pub attempt_no : ℕ
  pub offset : ℕ
  pub text : Text
  pub status : StreamStatus
  pub frames : List DeltaFrame
  pub gaps : List ℕ
  pub truncated : Bool

abbrev pub new_stream : ℕ → ℕ → DraftStream
new_stream max_frames max_chars = record {
  max_frames = max_frames;
  max_chars = max_chars;
  attempt_no = 0;
  offset = 0;
  text = [];
  status = status_draft;
  frames = [];
  gaps = [];
  truncated = false;
}

-- xs[n:]
unfoldable pub drop {ℓ} : {A : Type ℓ} → ℕ → List A → List A
drop zero xs = xs
drop (suc n) [] = []
drop (suc n) (x ∷ xs) = drop n xs

-- del frames[:dropped]
abbrev pub bound_frames : ℕ → List DeltaFrame → List DeltaFrame
bound_frames max_frames frames =
    if ltb max_frames (length frames) then drop (length frames - max_frames) frames else frames

-- text[-max_chars:], which is the whole text where max_chars is 0.
abbrev pub bound_text : ℕ → Text → Text
bound_text max_chars text =
    if ltb max_chars (length text)
    then if max_chars == 0 then text else drop (length text - max_chars) text
    else text

-- `_append`
unfoldable pub append_frame : DeltaFrame → DraftStream → DraftStream
append_frame frame s = record s {
  frames = bound_frames s.max_frames (s.frames ++ frame ∷ []);
  text = bound_text s.max_chars (s.text ++ frame.text);
  offset = s.offset + length frame.text;
  truncated =
      s.truncated
      || ltb s.max_frames (length (s.frames ++ frame ∷ []))
      || ltb s.max_chars (length (s.text ++ frame.text));
}

-- The frame of the current or a later attempt.
abbrev pub apply_current : DeltaFrame → DraftStream → Applying × DraftStream
apply_current frame s =
    if ltb frame.offset s.offset
    then (returns (record { status = duplicate; offset = s.offset; text = [] }), s)
    else if ltb s.offset frame.offset
    then (
      returns (record { status = gap; offset = s.offset; text = s.text }),
      record s { gaps = s.gaps ++ frame.offset ∷ [] },
    )
    else (
      returns (record { status = applied; offset = (append_frame frame s).offset; text = [] }),
      append_frame frame s,
    )

abbrev pub apply_open : DeltaFrame → DraftStream → Applying × DraftStream
apply_open frame s =
    if ltb frame.attempt_no s.attempt_no
    then (returns (record { status = duplicate; offset = s.offset; text = [] }), s)
    else apply_current frame (record s { attempt_no = frame.attempt_no })

abbrev pub apply_in : StreamStatus → DeltaFrame → DraftStream → Applying × DraftStream
apply_in status_draft frame s = apply_open frame s
apply_in status_finished frame s = (draft_stream_closed status_finished, s)
apply_in status_canceled frame s = (draft_stream_closed status_canceled, s)

unfoldable pub apply : DeltaFrame → DraftStream → Applying × DraftStream
apply frame s = apply_in s.status frame s

abbrev pub apply_segment : ℕ → Text → DraftStream → Applying × DraftStream
apply_segment attempt_no text s =
    apply (record { attempt_no = attempt_no; offset = s.offset; text = text; is_segment = true }) s

abbrev pub close_as : StreamStatus → StreamStatus → StreamStatus
close_as closing status_draft = closing
close_as closing status_finished = status_finished
close_as closing status_canceled = status_canceled

abbrev pub finish : DraftStream → DraftStream
finish s = record s { status = close_as status_finished s.status }

abbrev pub cancel : DraftStream → DraftStream
cancel s = record s { status = close_as status_canceled s.status }

-- The offset, the text and whether the client must resync.
abbrev pub snapshot : Option ℕ → DraftStream → ℕ × Text × Bool
snapshot none s = (s.offset, s.text, false)
snapshot (some after_offset) s = (s.offset, s.text, ltb s.offset after_offset)
