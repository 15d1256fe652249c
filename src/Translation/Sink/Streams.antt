-- ===== src/Translation/Sink/Streams.antt =====
-- The streams of a text, delivered by `_dispatch_translate` once or again and again.
use mathlib.Core.List.{append_assoc, append-nil}
use truyenaudio_studio.Prelude.{
  ℕ, ◌≡◌, refl, sym, ap, ◌∙◌, subst, Bool, true, false, ◌&&◌, some, List, [], ◌∷◌, ◌++◌, All,
  All-append_rows, arith, Bool-cases, inl, inr,
}
use truyenaudio_studio.Prelude.Lists.{length}
use truyenaudio_studio.Translation.Text.{Text, is_empty}
use truyenaudio_studio.Translation.Segmenter.{drop}
use truyenaudio_studio.Translation.Content.{Content, Result}
use truyenaudio_studio.Translation.Content.Laws.{IsStripped}
use truyenaudio_studio.Translation.Drafts.{Db, DraftAppendResult, append_draft_delta}
use truyenaudio_studio.Translation.Drafts.Stream.{
  is_applied, append_draft_delta-cases, Applied-stored, Applied-IsStoredDict,
}
use truyenaudio_studio.Translation.Drafts.Saving.{is_ok}
use truyenaudio_studio.Translation.Drafts.Returns.{append_draft_delta-ok}
use truyenaudio_studio.Translation.Sink.Delivery.{
  starts_with, IsFrameOf, stored, HasDict, deliver, frames-prefix,
}
use truyenaudio_studio.Translation.Sink.{Sink, Frame, Delta, count_result, emitted, streamed}

append-empty : (xs ys : Text) → is_empty ys ≡ true → xs ++ ys ≡ xs
append-empty xs [] h = append-nil xs
append-empty xs (y ∷ ys) h = cc

-- The frames of a stream stand in its text.
starts_with-itself : (xs ys : Text) → starts_with xs (xs ++ ys) ≡ true
unfolding starts_with
starts_with-itself [] ys = refl
starts_with-itself (x ∷ xs) ys = ground (arith, starts_with-itself xs ys)

drop-append : (xs ys : Text) → drop (length xs) (xs ++ ys) ≡ ys
unfolding drop
drop-append [] ys = refl
drop-append (x ∷ xs) ys = drop-append xs ys

emitted-frames :
    (before : Text) (ds : List Delta) → All (IsFrameOf (before ++ streamed ds)) (emitted before ds)
unfolding emitted
emitted-frames before [] = tt
emitted-frames before (d ∷ ds) =
    let rest =
      subst (λ t. All (IsFrameOf t) (emitted (before ++ d.text) ds))
        (append_assoc before d.text (streamed ds)) (emitted-frames (before ++ d.text) ds) in
    elim (Bool-cases (is_empty d.text)) [
      | inl nothing ↦ rw nothing rest
      | inr some_text ↦ rw some_text (
        ap (starts_with d.text) (drop-append before (d.text ++ streamed ds))
            ∙ starts_with-itself d.text (streamed ds),
        rest,
      )
    ]

-- The frames of several streams, one after the other.
abbrev pub emitted_all : List (List Delta) → List Frame
emitted_all [] = []
emitted_all (ds ∷ runs) = emitted [] ds ++ emitted_all runs

emitted_all-frames :
    (text : Text) (runs : List (List Delta))
    → All (λ ds. streamed ds ≡ text) runs
    → All (IsFrameOf text) (emitted_all runs)
emitted_all-frames text [] h = tt
emitted_all-frames text (ds ∷ runs) (same, h) =
    All-append_rows (IsFrameOf text) (emitted [] ds) (emitted_all runs)
      (subst (λ t. All (IsFrameOf t) (emitted [] ds)) same (emitted-frames [] ds))
      (emitted_all-frames text runs h)

module _ (encoded_length : Content → ℕ) (chapter_id base_revision_id : ℕ) (segment_id : Text) where
  -- When a text is streamed any number of times, cut into deltas in any way each time, and some calls of the sink fail,
  -- the text that the draft stores for the segment is always a prefix of this text, if it was one before. The segment id
  -- has no white space round it, and the keys of the draft before were distinct and stripped.
  pub streams-prefix :
      (text : Text) (runs : List (List Delta)) (s : Sink) (db : Db)
      → IsStripped segment_id
      → HasDict encoded_length chapter_id base_revision_id segment_id db
      → All (λ ds. streamed ds ≡ text) runs
      → starts_with (stored encoded_length chapter_id base_revision_id segment_id db) text ≡ true
      → starts_with
          (stored encoded_length chapter_id base_revision_id segment_id (
            (deliver encoded_length chapter_id base_revision_id segment_id
              (emitted_all runs)
              s
              db).1))
          text
        ≡ true
  streams-prefix text runs s db stripped d same h =
      frames-prefix encoded_length chapter_id base_revision_id segment_id text (emitted_all runs) s
        db stripped (emitted_all-frames text runs same) d h

  -- Every call of the sink returns.
  abbrev pub all_return : List Frame → Db → Bool
  all_return [] db = true
  all_return (frame ∷ frames) db =
      let (result, after) =
        append_draft_delta encoded_length chapter_id base_revision_id segment_id frame.delta
          (some frame.offset) frame.new_id db in
      is_ok result && all_return frames after

  call-advances :
      (before delta : Text) (new_id : ℕ) (db : Db)
      → IsStripped segment_id
      → HasDict encoded_length chapter_id base_revision_id segment_id db
      → stored encoded_length chapter_id base_revision_id segment_id db ≡ before
      → is_empty delta ≡ false
      → is_ok (
          (append_draft_delta encoded_length chapter_id base_revision_id segment_id delta
            (some (length before))
            new_id
            db).0)
        ≡ true
      → HasDict encoded_length chapter_id base_revision_id segment_id (
          (append_draft_delta encoded_length chapter_id base_revision_id segment_id delta
            (some (length before))
            new_id
            db).1)
        × (stored encoded_length chapter_id base_revision_id segment_id (
              (append_draft_delta encoded_length chapter_id base_revision_id segment_id delta
                (some (length before))
                new_id
                db).1)
            ≡ before ++ delta)
  call-advances before delta new_id db stripped d same more h =
      let called =
        append_draft_delta encoded_length chapter_id base_revision_id segment_id delta
          (some (length before)) new_id db in
      let goes : (t : Text) → Result DraftAppendResult = λ t.
        (append_draft_delta encoded_length chapter_id base_revision_id segment_id delta
          (some (length t)) new_id db).0 in
      let is_done =
        subst
          (λ t. is_applied encoded_length chapter_id base_revision_id segment_id (goes t) ≡ true)
          same
          (append_draft_delta-ok encoded_length chapter_id base_revision_id segment_id delta new_id
            db more (subst (λ t. is_ok (goes t) ≡ true) (sym same) h)) in
      elim (append_draft_delta-cases encoded_length chapter_id base_revision_id segment_id delta
        (some (length before)) new_id db stripped d) [
          | inr (not_applied, kept) ↦ absurd (ground (arith, is_done, not_applied))
          | inl (place, _, done) ↦
              let updated =
                stored encoded_length chapter_id base_revision_id segment_id db ++ delta in
              (
                Applied-IsStoredDict encoded_length chapter_id base_revision_id segment_id updated
                    db called done,
                Applied-stored encoded_length chapter_id base_revision_id segment_id updated db
                      called done
                    ∙ ap (λ t. t ++ delta) same,
              )
        ]

  stream-continues :
      (before : Text) (ds : List Delta) (s : Sink) (db : Db)
      → IsStripped segment_id
      → HasDict encoded_length chapter_id base_revision_id segment_id db
      → stored encoded_length chapter_id base_revision_id segment_id db ≡ before
      → all_return (emitted before ds) db ≡ true
      → stored encoded_length chapter_id base_revision_id segment_id (
          (deliver encoded_length chapter_id base_revision_id segment_id
            (emitted before ds)
            s
            db).1)
        ≡ before ++ streamed ds
  unfolding emitted
  stream-continues before [] s db stripped d same h = same ∙ sym (append-nil before)
  stream-continues before (x ∷ ds) s db stripped d same h = elim (Bool-cases (is_empty x.text)) [
    | inl nothing ↦ rw nothing (
        stream-continues (before ++ x.text) ds s db stripped d
          (same ∙ sym (append-empty before x.text nothing)) (ground (arith, h, nothing))
        ∙ append_assoc before x.text (streamed ds))
    | inr some_text ↦
        let frame : Frame = record { delta = x.text; offset = length before; new_id = x.new_id } in
        let called =
          append_draft_delta encoded_length chapter_id base_revision_id segment_id x.text
            (some (length before)) x.new_id db in
        let (d', same') =
          call-advances before x.text x.new_id db stripped d same some_text
            (ground (arith, h, some_text)) in
        rw some_text (
          stream-continues (before ++ x.text) ds (count_result (called.0) s) (called.1) stripped d'
            same' (ground (arith, h, some_text))
          ∙ append_assoc before x.text (streamed ds))
  ]

  -- When the draft has no text for the segment, and no call of the sink raises, a stream leaves its whole text there. The
  -- segment id has no white space round it, and the keys of the draft before were distinct and stripped.
  pub stream_complete :
      (ds : List Delta) (s : Sink) (db : Db)
      → IsStripped segment_id
      → HasDict encoded_length chapter_id base_revision_id segment_id db
      → stored encoded_length chapter_id base_revision_id segment_id db ≡ []
      → all_return (emitted [] ds) db ≡ true
      → stored encoded_length chapter_id base_revision_id segment_id
          ((deliver encoded_length chapter_id base_revision_id segment_id (emitted [] ds) s db).1)
        ≡ streamed ds
  stream_complete ds s db stripped d same h = stream-continues [] ds s db stripped d same h
