-- ===== src/Translation/Drafts/Returns.antt =====
-- A call of `append_draft_delta` at the end of the stored text that returns has applied its delta.
use truyenaudio_studio.Prelude.{
  ℕ, ◌≡◌, refl, sym, ap, ◌∙◌, true, false, Option, some, ◌++◌, arith, Bool-cases, inl, inr,
}
use truyenaudio_studio.Prelude.Lists.{length}
use truyenaudio_studio.Translation.Text.{Text, is_empty}
use truyenaudio_studio.Translation.Content.{Content, Result, ok, err, put, normalize_content}
use truyenaudio_studio.Translation.Drafts.{
  Chapter, WorkspaceDraft, Db, load, require_scope, is_of_revision, write_row, content_of,
  to_applied, at, position, apply_delta, append_draft_delta,
}
use truyenaudio_studio.Translation.Drafts.Loads.{Result-cases}
use truyenaudio_studio.Translation.Drafts.Saving.{is_ok}
use truyenaudio_studio.Translation.Drafts.Stream.{stored_text, is_applied}

position-same : (n : ℕ) → position (some n) n ≡ at
position-same n = ground arith

module _ (encoded_length : Content → ℕ) where
  module _ (chapter_id base_revision_id : ℕ) (segment_id : Text) where
    to_applied-ok :
        (updated : Text) (w : Result WorkspaceDraft × Db)
        → is_ok ((to_applied updated w).0) ≡ true
        → is_applied encoded_length chapter_id base_revision_id segment_id
            ((to_applied updated w).0)
          ≡ true
    to_applied-ok updated (ok row, db) h = refl
    to_applied-ok updated (err e, db) h = cc

    apply_delta-ok :
        (row : Option WorkspaceDraft) (chapter : Chapter) (updated : Text) (new_id : ℕ) (db : Db)
        → is_ok (
            (apply_delta encoded_length row chapter base_revision_id segment_id updated new_id
              db).0)
          ≡ true
        → is_applied encoded_length chapter_id base_revision_id segment_id (
            (apply_delta encoded_length row chapter base_revision_id segment_id updated new_id
              db).0)
          ≡ true
    unfolding apply_delta
    apply_delta-ok row chapter updated new_id db h =
        elim (Result-cases
          (normalize_content encoded_length (put segment_id updated (content_of row)))) [
            | inr (e, invalid) ↦ absurd (ground (arith, h, invalid))
            | inl (normalized, valid) ↦
                let write = write_row row chapter base_revision_id normalized new_id db in
                rw (apply_delta, valid) (to_applied-ok updated write (ground (arith, h, valid)))
          ]

    -- A delta at the end of the stored text is applied, unless the call raises.
    pub append_draft_delta-ok :
        (delta : Text) (new_id : ℕ) (db : Db)
        → is_empty delta ≡ false
        → is_ok (
            (append_draft_delta encoded_length chapter_id base_revision_id segment_id delta
              (some (length (stored_text encoded_length chapter_id base_revision_id segment_id db)))
              new_id
              db).0)
          ≡ true
        → is_applied encoded_length chapter_id base_revision_id segment_id (
            (append_draft_delta encoded_length chapter_id base_revision_id segment_id delta
              (some (length (stored_text encoded_length chapter_id base_revision_id segment_id db)))
              new_id
              db).0)
          ≡ true
    unfolding append_draft_delta
    append_draft_delta-ok delta new_id db more h =
        elim (Result-cases (require_scope chapter_id base_revision_id db)) [
          | inr (e, missing) ↦ absurd (ground (arith, h, missing))
          | inl (chapter, scope) ↦
              elim (Bool-cases (is_of_revision base_revision_id segment_id db)) [
                | inr unknown ↦ absurd (ground (arith, h, scope, unknown))
                | inl known ↦
                    let place = position-same (
                      length
                        (stored_text encoded_length chapter_id base_revision_id segment_id db)) in
                    let row = load chapter_id base_revision_id db in
                    let returns : append_draft_delta encoded_length chapter_id base_revision_id
                          segment_id delta
                          (some (
                            length (
                              stored_text encoded_length chapter_id base_revision_id segment_id
                                db)))
                          new_id db
                        ≡ apply_delta encoded_length row chapter base_revision_id segment_id
                            (stored_text encoded_length chapter_id base_revision_id segment_id db
                              ++ delta)
                            new_id db =
                      rw (append_draft_delta, scope) (rw known (rw place (rw more refl))) in
                    ap (λ w. is_applied encoded_length chapter_id base_revision_id segment_id (w.0))
                      returns
                    ∙ apply_delta-ok row chapter
                        (stored_text encoded_length chapter_id base_revision_id segment_id db
                          ++ delta)
                        new_id db (ap (λ w. is_ok (w.0)) (sym returns) ∙ h)
              ]
        ]
