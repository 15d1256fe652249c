-- ===== src/Translation/Drafts/Stream.antt =====
-- `append_draft_delta`: each call appends the delta to the stored text and writes the row, or changes nothing.
use truyenaudio_studio.Prelude.{
  ℕ, suc, ◌≡◌, ◌≢◌, refl, sym, ap, ◌∙◌, subst, Bool, true, false, ◌⊎◌, Option, none, some, [], ◌∷◌,
  ◌++◌, arith, Bool-cases, inl, inr, coalesce,
}
use truyenaudio_studio.Prelude.Lists.{length}
use truyenaudio_studio.Translation.Text.{Text, is_empty}
use truyenaudio_studio.Translation.Content.{Content, Result, ok, err, get, put, normalize_content}
use truyenaudio_studio.Translation.Content.Laws.{
  IsStripped, IsDict, get-put, put-IsDict, get-normalize_from, normalize_from-IsDict,
}
use truyenaudio_studio.Translation.Drafts.{
  Chapter, WorkspaceDraft, DraftAppendResult, applied, duplicate, gap, Db, load, require_scope,
  is_of_revision, write_row, or_empty, existing_text, content_of, revision_of, append_result,
  to_applied, Position, before, at, behind, position, apply_delta, append_to, append_draft_delta,
}
use truyenaudio_studio.Translation.Drafts.Loads.{
  written-content, normalize_content-ok, Result-cases, written, require_scope-id, load-write,
  write_row-result, write_row-err,
}
use truyenaudio_studio.Translation.Drafts.Saving.{ok-inj, or_zero}

longer : (xs ys : Text) → is_empty ys ≡ false → length xs ≢ length (xs ++ ys)
longer [] [] h = λ e. absurd (ground (arith, h))
longer [] (y ∷ ys) h = λ e. ground (arith, e)
longer (x ∷ xs) ys h = λ e. longer xs ys h (ground (arith, e))

module _ (encoded_length : Content → ℕ) where
  written-get :
      (segment_id updated : Text) (content : Content) {normalized : Content}
      → IsStripped segment_id
      → IsDict content
      → normalize_content encoded_length (put segment_id updated content) ≡ ok normalized
      → (get segment_id normalized ≡ some updated) × IsDict normalized
  unfolding get
  written-get segment_id updated content {normalized} stripped d h =
      let dict = put-IsDict segment_id updated content stripped d in
      let from = normalize_content-ok encoded_length (put segment_id updated content) h in
      (
        get-normalize_from segment_id [] (put segment_id updated content) dict from
            ∙ ap (λ o. coalesce o none) (get-put segment_id updated content),
        normalize_from-IsDict [] (put segment_id updated content) tt from,
      )

  module _ (chapter_id base_revision_id : ℕ) (segment_id : Text) where
    -- The text of the segment in the draft that is stored.
    abbrev pub stored_text : Db → Text
    stored_text db = existing_text segment_id (load chapter_id base_revision_id db)

    abbrev pub stored_revision : Db → ℕ
    stored_revision db = or_zero (revision_of (load chapter_id base_revision_id db))

    -- The stored content is a dict with stripped keys.
    abbrev pub IsStoredDict : Db → Type 0
    IsStoredDict db = IsDict (content_of (load chapter_id base_revision_id db))

    abbrev pub Applied : Text → Db → Result DraftAppendResult × Db → Type 0
    Applied updated db (result, after) =
        (row : WorkspaceDraft) × (load chapter_id base_revision_id after ≡ some row)
        × (result ≡ ok (append_result applied updated (some row)))
        × (get segment_id row.content_json ≡ some updated)
        × IsDict row.content_json
        × (row.revision ≡ suc (stored_revision db))

    abbrev pub is_applied : Result DraftAppendResult → Bool
    is_applied (err e) = false
    is_applied (ok r) = elim r.status [ applied ↦ true | duplicate ↦ false | gap ↦ false ]

    abbrev pub Kept : Db → Result DraftAppendResult × Db → Type 0
    Kept db (result, after) = (is_applied result ≡ false) × (after ≡ db)

    written-revision :
        (row : Option WorkspaceDraft) (chapter : Chapter) (content : Content) (new_id : ℕ)
        → (written row chapter base_revision_id content new_id).revision
          ≡ suc (or_zero (revision_of row))
    written-revision none chapter content new_id = refl
    written-revision (some row) chapter content new_id = refl

    to_applied-Applied :
        (updated : Text) (db : Db) (w : Result WorkspaceDraft × Db) (row : WorkspaceDraft)
        → w.0 ≡ ok row
        → load chapter_id base_revision_id (w.1) ≡ some row
        → get segment_id row.content_json ≡ some updated
        → IsDict row.content_json
        → row.revision ≡ suc (stored_revision db)
        → Applied updated db (to_applied updated w)
    to_applied-Applied updated db (ok r, after) row h found text d next = (
      row,
      found,
      ap (λ x. ok (append_result applied updated (some x))) (ok-inj h),
      text,
      d,
      next,
    )
    to_applied-Applied updated db (err e, after) row h found text d next =
        absurd (ground (arith, h))

    apply_delta-cases :
        (chapter : Chapter) (updated : Text) (new_id : ℕ) (db : Db)
        → chapter.id ≡ chapter_id
        → IsStripped segment_id
        → IsStoredDict db
        → Applied updated db (
            apply_delta encoded_length
              (load chapter_id base_revision_id db)
              chapter
              base_revision_id
              segment_id
              updated
              new_id
              db)
          ⊎ Kept db (
              apply_delta encoded_length
                (load chapter_id base_revision_id db)
                chapter
                base_revision_id
                segment_id
                updated
                new_id
                db)
    unfolding apply_delta
    apply_delta-cases chapter updated new_id db same stripped d =
        let row = load chapter_id base_revision_id db in
        elim (Result-cases
          (normalize_content encoded_length (put segment_id updated (content_of row)))) [
            | inr (e, invalid) ↦ rw (apply_delta, invalid) (inr (refl, refl))
            | inl (normalized, valid) ↦
                let write = write_row row chapter base_revision_id normalized new_id db in
                elim (Result-cases (write.0)) [
                  | inr (e, failed) ↦
                      rw (apply_delta, valid)
                        (rw (write_row-err row chapter base_revision_id normalized new_id db failed)
                          (inr (refl, refl)))
                  | inl (result, returns) ↦
                      let (text, dict) =
                        written-get segment_id updated (content_of row) stripped d valid in
                      let is_written =
                        write_row-result chapter base_revision_id normalized new_id db row
                          returns in
                      let content =
                        ap (λ r. r.content_json) is_written
                        ∙ written-content base_revision_id row chapter normalized new_id in
                      rw (apply_delta, valid)
                        (inl (
                          to_applied-Applied updated db write result returns
                            (load-write chapter_id chapter base_revision_id normalized new_id db row
                                same refl returns
                              ∙ ap some (sym is_written))
                            (ap (get segment_id) content ∙ text) (subst IsDict (sym content) dict)
                            (ap (λ r. r.revision) is_written
                              ∙ written-revision row chapter normalized new_id)))
                ]
          ]

    append_to-cases :
        (place : Position) (chapter : Chapter) (delta : Text) (new_id : ℕ) (db : Db)
        → chapter.id ≡ chapter_id
        → IsStripped segment_id
        → IsStoredDict db
        → ((place ≡ at)
            × (is_empty delta ≡ false)
            × Applied (stored_text db ++ delta) db (
                append_to encoded_length place
                  (load chapter_id base_revision_id db)
                  chapter
                  base_revision_id
                  segment_id
                  delta
                  new_id
                  db))
          ⊎ Kept db (
              append_to encoded_length place
                (load chapter_id base_revision_id db)
                chapter
                base_revision_id
                segment_id
                delta
                new_id
                db)
    append_to-cases before chapter delta new_id db same stripped d = inr (refl, refl)
    append_to-cases behind chapter delta new_id db same stripped d = inr (refl, refl)
    append_to-cases at chapter delta new_id db same stripped d =
        elim (Bool-cases (is_empty delta)) [
          | inl none_left ↦ rw none_left (inr (refl, refl))
          | inr more ↦
              rw more
                (elim (apply_delta-cases chapter (stored_text db ++ delta) new_id db same stripped
                  d) [ inl done ↦ inl (refl, refl, done) | inr kept ↦ inr kept ])
        ]

    pub append_draft_delta-cases :
        (delta : Text) (offset : Option ℕ) (new_id : ℕ) (db : Db)
        → IsStripped segment_id
        → IsStoredDict db
        → ((position offset (length (stored_text db)) ≡ at)
            × (is_empty delta ≡ false)
            × Applied (stored_text db ++ delta) db (
                append_draft_delta encoded_length chapter_id base_revision_id segment_id delta
                  offset new_id db))
          ⊎ Kept db (
              append_draft_delta encoded_length chapter_id base_revision_id segment_id delta offset
                new_id db)
    unfolding append_draft_delta
    append_draft_delta-cases delta offset new_id db stripped d =
        elim (Result-cases (require_scope chapter_id base_revision_id db)) [
          | inr (e, missing) ↦ rw (append_draft_delta, missing) (inr (refl, refl))
          | inl (chapter, scope) ↦
              elim (Bool-cases (is_of_revision base_revision_id segment_id db)) [
                | inr unknown ↦ rw (append_draft_delta, scope) (rw unknown (inr (refl, refl)))
                | inl known ↦
                    rw (append_draft_delta, scope)
                      (rw known (
                        append_to-cases (position offset (length (stored_text db))) chapter delta
                          new_id db (require_scope-id chapter_id base_revision_id db scope) stripped
                          d))
              ]
        ]

    pub Applied-stored :
        (updated : Text) (db : Db) (w : Result DraftAppendResult × Db)
        → Applied updated db w
        → stored_text (w.1) ≡ updated
    Applied-stored updated db (result, after) (row, found, returns, text, d, next) =
        ap (existing_text segment_id) found ∙ ap or_empty text

    pub Applied-IsStoredDict :
        (updated : Text) (db : Db) (w : Result DraftAppendResult × Db)
        → Applied updated db w
        → IsStoredDict (w.1)
    Applied-IsStoredDict updated db (result, after) (row, found, returns, text, d, next) =
        subst (λ o. IsDict (content_of o)) (sym found) d

    pub Applied-revision :
        (updated : Text) (db : Db) (w : Result DraftAppendResult × Db)
        → Applied updated db w
        → stored_revision (w.1) ≡ suc (stored_revision db)
    Applied-revision updated db (result, after) (row, found, returns, text, d, next) =
        ap (λ o. or_zero (revision_of o)) found ∙ next

    pub position-at : (offset current : ℕ) → position (some offset) current ≡ at → offset ≡ current
    position-at offset current h = ground (arith, h)

    -- When a delta has been applied at an offset, a later call with the same offset changes nothing and applies nothing,
    -- whatever its delta is; the segment id has no white space round it, and the keys of the draft before were distinct
    -- and stripped.
    pub append_draft_delta-again :
        (delta second : Text) (offset new_id second_id : ℕ) (db : Db)
        → IsStripped segment_id
        → IsStoredDict db
        → is_applied (
            (append_draft_delta encoded_length chapter_id base_revision_id segment_id delta
              (some offset)
              new_id
              db).0)
          ≡ true
        → let after =
            (append_draft_delta encoded_length chapter_id base_revision_id segment_id delta
              (some offset)
              new_id
              db).1 in
          Kept after (
            append_draft_delta encoded_length chapter_id base_revision_id segment_id second
              (some offset)
              second_id
              after)
    append_draft_delta-again delta second offset new_id second_id db stripped d h =
        let first =
          append_draft_delta encoded_length chapter_id base_revision_id segment_id delta
            (some offset) new_id db in
        elim (append_draft_delta-cases delta (some offset) new_id db stripped d) [
          | inr (not_applied, same) ↦ absurd (ground (arith, h, not_applied))
          | inl (place, more, done) ↦
              let stored = Applied-stored (stored_text db ++ delta) db first done in
              elim (append_draft_delta-cases second (some offset) second_id (first.1) stripped
                (Applied-IsStoredDict (stored_text db ++ delta) db first done)) [
                  | inr kept ↦ kept
                  | inl (again, _, _) ↦ absurd (
                      longer (stored_text db) delta more (
                        sym (position-at offset (length (stored_text db)) place)
                        ∙ position-at offset (length (stored_text (first.1))) again
                        ∙ ap length stored))
                ]
        ]
