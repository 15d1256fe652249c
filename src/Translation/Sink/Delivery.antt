-- ===== src/Translation/Sink/Delivery.antt =====
-- Frames of one text, delivered in any order and any number of times.
use truyenaudio_studio.Prelude.{
  ℕ, suc, ◌+◌, ◌≡◌, refl, sym, ap, ◌∙◌, subst, Bool, true, false, ◌&&◌, some, List, [], ◌∷◌, ◌++◌,
  ◌==◌, All, arith, inl, inr,
}
use truyenaudio_studio.Prelude.Lists.{length}
use truyenaudio_studio.Translation.Text.{Text}
use truyenaudio_studio.Translation.Segmenter.{drop}
use truyenaudio_studio.Translation.Content.{Content, Result, ok, err}
use truyenaudio_studio.Translation.Content.Laws.{IsStripped}
use truyenaudio_studio.Translation.Drafts.{
  Db, DraftAppendResult, AppendStatus, applied, duplicate, gap, append_draft_delta,
}
use truyenaudio_studio.Translation.Drafts.Stream.{
  stored_text, stored_revision, IsStoredDict, is_applied, Applied, append_draft_delta-cases,
  Applied-stored, Applied-IsStoredDict, Applied-revision, position-at,
}
use truyenaudio_studio.Translation.Sink.{Sink, Frame, count_status, count_result, append_all}

-- text.startswith(start)
unfoldable pub starts_with : Text → Text → Bool
starts_with [] text = true
starts_with (c ∷ cs) [] = false
starts_with (c ∷ cs) (d ∷ ds) = c == d && starts_with cs ds

-- The frame's delta stands at its offset in the text.
abbrev pub IsFrameOf : Text → Frame → Type 0
IsFrameOf text frame = starts_with frame.delta (drop frame.offset text) ≡ true

starts_with-append :
    (start more text : Text)
    → starts_with start text ≡ true
    → starts_with more (drop (length start) text) ≡ true
    → starts_with (start ++ more) text ≡ true
unfolding starts_with drop
starts_with-append [] more text h k = k
starts_with-append (c ∷ cs) more [] h k = absurd (ground (arith, h))
starts_with-append (c ∷ cs) more (d ∷ ds) h k =
    ground (arith, h, starts_with-append cs more ds (ground (arith, h)) k)

count_status-kept :
    (status : AppendStatus) (s : Sink)
    → (elim status [ applied ↦ true | duplicate ↦ false | gap ↦ false ]) ≡ false
    → (count_status status s).applied_count ≡ s.applied_count
count_status-kept applied s h = cc
count_status-kept duplicate s h = refl
count_status-kept gap s h = refl

module _ (encoded_length : Content → ℕ) (chapter_id base_revision_id : ℕ) (segment_id : Text) where
  abbrev pub stored : Db → Text
  stored = stored_text encoded_length chapter_id base_revision_id segment_id

  abbrev pub revision_number : Db → ℕ
  revision_number = stored_revision encoded_length chapter_id base_revision_id segment_id

  abbrev pub HasDict : Db → Type 0
  HasDict = IsStoredDict encoded_length chapter_id base_revision_id segment_id

  abbrev call : Frame → Db → Result DraftAppendResult × Db
  call frame db =
      append_draft_delta encoded_length chapter_id base_revision_id segment_id frame.delta
        (some frame.offset) frame.new_id db

  abbrev pub deliver : List Frame → Sink → Db → Sink × Db
  deliver = append_all encoded_length chapter_id base_revision_id segment_id

  count-kept :
      (result : Result DraftAppendResult) (s : Sink)
      → is_applied encoded_length chapter_id base_revision_id segment_id result ≡ false
      → (count_result result s).applied_count ≡ s.applied_count
  count-kept (err e) s h = refl
  count-kept (ok r) s h = count_status-kept r.status s h

  count-Applied :
      (updated : Text) (db : Db) (w : Result DraftAppendResult × Db) (s : Sink)
      → Applied encoded_length chapter_id base_revision_id segment_id updated db w
      → (count_result (w.0) s).applied_count ≡ suc s.applied_count
  count-Applied updated db (result, after) s (row, found, returns, text, d, next) =
      ap (λ r. (count_result r s).applied_count) returns

  -- One call keeps the stored text a prefix of the text of the stream.
  call-prefix :
      (text : Text) (frame : Frame) (db : Db)
      → IsStripped segment_id
      → IsFrameOf text frame
      → HasDict db
      → starts_with (stored db) text ≡ true
      → HasDict ((call frame db).1) × (starts_with (stored ((call frame db).1)) text ≡ true)
  call-prefix text frame db stripped fits d h =
      elim (append_draft_delta-cases encoded_length chapter_id base_revision_id segment_id
        frame.delta (some frame.offset) frame.new_id db stripped d) [
          | inr (not_applied, same) ↦
              (subst HasDict (sym same) d, ap (λ t. starts_with (stored t) text) same ∙ h)
          | inl (place, more, done) ↦
              let updated = stored db ++ frame.delta in
              let at_end =
                position-at encoded_length chapter_id base_revision_id segment_id frame.offset
                  (length (stored db)) place in
              (
                Applied-IsStoredDict encoded_length chapter_id base_revision_id segment_id updated
                    db (call frame db) done,
                ap (λ t. starts_with t text)
                      (Applied-stored encoded_length chapter_id base_revision_id segment_id updated
                        db (call frame db) done)
                    ∙ starts_with-append (stored db) frame.delta text h
                        (ap (λ n. starts_with frame.delta (drop n text)) (sym at_end) ∙ fits),
              )
        ]

  pub frames-prefix :
      (text : Text) (frames : List Frame) (s : Sink) (db : Db)
      → IsStripped segment_id
      → All (IsFrameOf text) frames
      → HasDict db
      → starts_with (stored db) text ≡ true
      → starts_with (stored ((deliver frames s db).1)) text ≡ true
  frames-prefix text [] s db stripped fits d h = h
  frames-prefix text (frame ∷ frames) s db stripped (fit, fits) d h =
      let (d', h') = call-prefix text frame db stripped fit d h in
      frames-prefix text frames (count_result ((call frame db).0) s) ((call frame db).1) stripped
        fits d' h'

  call-revision :
      (frame : Frame) (s : Sink) (db : Db)
      → IsStripped segment_id
      → HasDict db
      → HasDict ((call frame db).1)
        × (revision_number ((call frame db).1) + s.applied_count
            ≡ revision_number db + (count_result ((call frame db).0) s).applied_count)
  call-revision frame s db stripped d =
      elim (append_draft_delta-cases encoded_length chapter_id base_revision_id segment_id
        frame.delta (some frame.offset) frame.new_id db stripped d) [
          | inr (not_applied, same) ↦
              let still = count-kept ((call frame db).0) s not_applied in
              let number = ap revision_number same in
              (subst HasDict (sym same) d, omega (arith, still, number))
          | inl (place, more, done) ↦
              let updated = stored db ++ frame.delta in
              let counted = count-Applied updated db (call frame db) s done in
              let number =
                Applied-revision encoded_length chapter_id base_revision_id segment_id updated db
                  (call frame db) done in
              (
                Applied-IsStoredDict encoded_length chapter_id base_revision_id segment_id updated
                    db (call frame db) done,
                omega (arith, counted, number),
              )
        ]

  -- Whatever frames are delivered to the sink, in whatever order and however often, with calls that fail among them:
  -- the revision of the stored draft has grown by the number of calls that the sink has counted as applied.
  -- The segment id has no white space round it, and the keys of the draft before were distinct and stripped.
  pub deliver-revision :
      (frames : List Frame) (s : Sink) (db : Db)
      → IsStripped segment_id
      → HasDict db
      → revision_number ((deliver frames s db).1) + s.applied_count
        ≡ revision_number db + ((deliver frames s db).0).applied_count
  deliver-revision [] s db stripped d = refl
  deliver-revision (frame ∷ frames) s db stripped d =
      let (d', step) = call-revision frame s db stripped d in
      let rest =
        deliver-revision frames (count_result ((call frame db).0) s) ((call frame db).1) stripped
          d' in
      omega (arith, step, rest)
