-- ===== src/Translation/DraftStream/Refines.antt =====
-- The bounded stream implements a feed that keeps the whole text.
use truyenaudio_studio.Prelude.{
  ℕ, ◌≤◌, ◌<◌, ◌≡◌, refl, sym, ap, ◌∙◌, subst, true, false, ◌⊎◌, List, [], ◌∷◌, ◌++◌, ltb, ◌==◌,
  if◌then◌else◌, arith, Bool-cases, inl, inr,
}
use truyenaudio_studio.Prelude.Lists.{length}
use truyenaudio_studio.Translation.Text.{Text}
use truyenaudio_studio.Translation.DraftStream.{
  StreamStatus, status_draft, status_finished, status_canceled, DeltaFrame, DraftStream, new_stream,
  bound_frames, bound_text, append_frame, apply_current, apply_open, apply_in, apply, close_as,
}
use truyenaudio_studio.Translation.DraftStream.Bounded.{
  length_append, bound-bound, bound_frames-length,
}
use truyenaudio_studio.Translation.DraftStream.Feed.{
  Feed, new_feed, receive, receive_in, Op, op_apply, op_segment, op_finish, op_cancel, perform,
  perform_feed, perform_all, feed_all,
}

-- The stream shows the feed: its offset, attempt and status, and of its text the last max_chars characters, which are
-- the whole text unless the stream says that it is truncated; it keeps at most max_frames frames.
pub record Refines (max_frames max_chars : ℕ) (s : DraftStream) (feed : Feed) : Type 0 where
  pub frame_limit : s.max_frames ≡ max_frames
  pub char_limit : s.max_chars ≡ max_chars
  pub same_offset : s.offset ≡ length feed.whole
  pub same_attempt : s.attempt_no ≡ feed.attempt
  pub same_status : s.status ≡ feed.state
  pub same_text : s.text ≡ bound_text max_chars feed.whole
  pub few_frames : length s.frames ≤ max_frames
  pub truncates : (s.truncated ≡ true) ⊎ (s.text ≡ feed.whole)

module _ (max_frames max_chars : ℕ) (positive : 0 < max_chars) where
  append_frame-truncates :
      (frame : DeltaFrame) (s : DraftStream) (whole : Text)
      → (s.truncated ≡ true) ⊎ (s.text ≡ whole)
      → ((append_frame frame s).truncated ≡ true)
        ⊎ ((append_frame frame s).text ≡ whole ++ frame.text)
  unfolding append_frame
  append_frame-truncates frame s whole (inl cut) = inl (ground (arith, cut))
  append_frame-truncates frame s whole (inr same) =
      elim (Bool-cases (ltb s.max_chars (length (s.text ++ frame.text)))) [
        | inl longer ↦ inl (ground (arith, longer))
        | inr short ↦ inr (rw (append_frame, short) (ap (λ t. t ++ frame.text) same))
      ]

  append_frame-Refines :
      (frame : DeltaFrame) (s : DraftStream) (feed : Feed)
      → Refines max_frames max_chars s feed
      → Refines max_frames max_chars
          (append_frame frame s)
          (record feed { whole = feed.whole ++ frame.text })
  unfolding append_frame
  append_frame-Refines frame s feed r =
      let total = length_append feed.whole frame.text in
      let offset = r.same_offset in
      record {
        frame_limit = r.frame_limit;
        char_limit = r.char_limit;
        same_offset = omega (arith, total, offset);
        same_attempt = r.same_attempt;
        same_status = r.same_status;
        same_text =
            ap (λ n. bound_text n (s.text ++ frame.text)) r.char_limit
            ∙ ap (λ t. bound_text max_chars (t ++ frame.text)) r.same_text
            ∙ bound-bound max_chars feed.whole frame.text positive;
        few_frames =
            subst (λ n. length (bound_frames n (s.frames ++ frame ∷ [])) ≤ max_frames)
              (sym r.frame_limit) (bound_frames-length max_frames (s.frames ++ frame ∷ []));
        truncates = append_frame-truncates frame s feed.whole r.truncates;
      }

  later-Refines :
      (attempt_no : ℕ) (s : DraftStream) (feed : Feed)
      → Refines max_frames max_chars s feed
      → Refines max_frames max_chars
          (record s { attempt_no = attempt_no })
          (record feed { attempt = attempt_no })
  later-Refines attempt_no s feed r = record {
    frame_limit = r.frame_limit;
    char_limit = r.char_limit;
    same_offset = r.same_offset;
    same_attempt = refl;
    same_status = r.same_status;
    same_text = r.same_text;
    few_frames = r.few_frames;
    truncates = r.truncates;
  }

  gap-Refines :
      (gaps : List ℕ) (s : DraftStream) (feed : Feed)
      → Refines max_frames max_chars s feed
      → Refines max_frames max_chars (record s { gaps = gaps }) feed
  gap-Refines gaps s feed r = record {
    frame_limit = r.frame_limit;
    char_limit = r.char_limit;
    same_offset = r.same_offset;
    same_attempt = r.same_attempt;
    same_status = r.same_status;
    same_text = r.same_text;
    few_frames = r.few_frames;
    truncates = r.truncates;
  }

  status-Refines :
      (status : StreamStatus) (s : DraftStream) (feed : Feed)
      → Refines max_frames max_chars s feed
      → Refines max_frames max_chars
          (record s { status = close_as status s.status })
          (record feed { state = close_as status feed.state })
  status-Refines status s feed r = record {
    frame_limit = r.frame_limit;
    char_limit = r.char_limit;
    same_offset = r.same_offset;
    same_attempt = r.same_attempt;
    same_status = ap (close_as status) r.same_status;
    same_text = r.same_text;
    few_frames = r.few_frames;
    truncates = r.truncates;
  }

  -- The frame of an attempt that is not older.
  abbrev received : DeltaFrame → Feed → Feed
  received frame feed =
      if frame.offset == length feed.whole
      then record feed { whole = feed.whole ++ frame.text }
      else feed

  apply_current-Refines :
      (frame : DeltaFrame) (s : DraftStream) (feed : Feed)
      → Refines max_frames max_chars s feed
      → Refines max_frames max_chars ((apply_current frame s).1) (received frame feed)
  apply_current-Refines frame s feed r =
      let offset = r.same_offset in
      elim (Bool-cases (ltb frame.offset s.offset)) [
        | inl before ↦
            let off : (frame.offset == length feed.whole) ≡ false =
              ground (arith, before, offset) in
            rw before (rw off r)
        | inr not_before ↦ elim (Bool-cases (ltb s.offset frame.offset)) [
          | inl behind ↦
              let off : (frame.offset == length feed.whole) ≡ false =
                ground (arith, behind, offset) in
              rw not_before
                (rw behind (rw off (gap-Refines (s.gaps ++ frame.offset ∷ []) s feed r)))
          | inr not_behind ↦
              let hit : (frame.offset == length feed.whole) ≡ true =
                ground (arith, not_before, not_behind, offset) in
              rw not_before (rw not_behind (rw hit (append_frame-Refines frame s feed r)))
        ]
      ]

  apply_open-Refines :
      (frame : DeltaFrame) (s : DraftStream) (feed : Feed)
      → Refines max_frames max_chars s feed
      → Refines max_frames max_chars ((apply_open frame s).1) (receive frame feed)
  apply_open-Refines frame s feed r = elim (Bool-cases (ltb frame.attempt_no s.attempt_no)) [
    | inl older ↦
        let stale = sym (ap (ltb frame.attempt_no) r.same_attempt) ∙ older in rw older (rw stale r)
    | inr current ↦
        let fresh = sym (ap (ltb frame.attempt_no) r.same_attempt) ∙ current in
        rw current (
          rw fresh (
            apply_current-Refines frame (record s { attempt_no = frame.attempt_no })
              (record feed { attempt = frame.attempt_no })
              (later-Refines frame.attempt_no s feed r)))
  ]

  apply_in-Refines :
      (status : StreamStatus) (frame : DeltaFrame) (s : DraftStream) (feed : Feed)
      → Refines max_frames max_chars s feed
      → Refines max_frames max_chars ((apply_in status frame s).1) (receive_in status frame feed)
  apply_in-Refines status_draft frame s feed r = apply_open-Refines frame s feed r
  apply_in-Refines status_finished frame s feed r = r
  apply_in-Refines status_canceled frame s feed r = r

  apply-Refines :
      (frame : DeltaFrame) (s : DraftStream) (feed : Feed)
      → Refines max_frames max_chars s feed
      → Refines max_frames max_chars ((apply frame s).1) (receive_in feed.state frame feed)
  unfolding apply
  apply-Refines frame s feed r =
      subst
        (λ status.
          Refines max_frames max_chars ((apply_in s.status frame s).1)
            (receive_in status frame feed))
        r.same_status (apply_in-Refines s.status frame s feed r)

  perform-Refines :
      (op : Op) (s : DraftStream) (feed : Feed)
      → Refines max_frames max_chars s feed
      → Refines max_frames max_chars (perform op s) (perform_feed op feed)
  perform-Refines (op_apply frame) s feed r = apply-Refines frame s feed r
  perform-Refines (op_segment attempt_no text) s feed r =
      subst
        (λ n.
          Refines max_frames max_chars
            ((apply
              (record {
                attempt_no = attempt_no;
                offset = s.offset;
                text = text;
                is_segment = true;
              })
              s).1)
            (receive_in feed.state
              (record { attempt_no = attempt_no; offset = n; text = text; is_segment = true })
              feed))
        r.same_offset
        (apply-Refines
          (record { attempt_no = attempt_no; offset = s.offset; text = text; is_segment = true }) s
          feed r)
  perform-Refines op_finish s feed r = status-Refines status_finished s feed r
  perform-Refines op_cancel s feed r = status-Refines status_canceled s feed r

  perform_all-from :
      (ops : List Op) (s : DraftStream) (feed : Feed)
      → Refines max_frames max_chars s feed
      → Refines max_frames max_chars (perform_all ops s) (feed_all ops feed)
  perform_all-from [] s feed r = r
  perform_all-from (op ∷ ops) s feed r =
      perform_all-from ops (perform op s) (perform_feed op feed) (perform-Refines op s feed r)

new_stream-Refines :
    (max_frames max_chars : ℕ)
    → Refines max_frames max_chars (new_stream max_frames max_chars) new_feed
new_stream-Refines max_frames max_chars = record {
  frame_limit = refl;
  char_limit = refl;
  same_offset = refl;
  same_attempt = refl;
  same_status = refl;
  same_text = ground arith;
  few_frames = omega arith;
  truncates = inr refl;
}

-- After any calls of apply, apply_segment, finish and cancel on a new DraftStream with a positive limit on characters,
-- the stream shows the feed that keeps the whole text and ignores frames of older attempts, frames that do not start at
-- its end, and every frame after it is closed: it has the offset, attempt and status of this feed, of its text the last
-- max_chars characters, all of it unless the stream says that it is truncated, and at most max_frames frames.
pub perform_all-Refines :
    (max_frames max_chars : ℕ) (ops : List Op)
    → 0 < max_chars
    → Refines max_frames max_chars
        (perform_all ops (new_stream max_frames max_chars))
        (feed_all ops new_feed)
perform_all-Refines max_frames max_chars ops positive =
    perform_all-from max_frames max_chars positive ops (new_stream max_frames max_chars) new_feed
      (new_stream-Refines max_frames max_chars)
