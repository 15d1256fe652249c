-- ===== src/Translation/Drafts/Loads.antt =====
-- What `_load` finds after a row was written, and what the checks of an operation have found when it goes on.
use truyenaudio_studio.Prelude.{
  ℕ, ◌≡◌, refl, sym, ap, ◌∙◌, true, ◌⊎◌, Option, none, some, [], ◌==◌, is_some, find_where,
  find_where_found, find_where-append, find_where-update, arith, Bool-cases, Option-cases, inl, inr,
}
use truyenaudio_studio.Translation.Content.{
  Content, DraftError, Result, ok, err, normalize_from, normalize_content,
}
use truyenaudio_studio.Translation.Drafts.{
  Chapter, WorkspaceDraft, Db, is_in_scope, load, require_scope, breaks_unique, first_row, next_row,
  add_row, update_row, write_row,
}

-- The row that write_row stores.
abbrev pub written : Option WorkspaceDraft → Chapter → ℕ → Content → ℕ → WorkspaceDraft
written none chapter base_revision_id content new_id =
    first_row chapter base_revision_id content new_id
written (some row) chapter base_revision_id content new_id = next_row content row

pub require_scope-id :
    (chapter_id base_revision_id : ℕ) (db : Db) {chapter : Chapter}
    → require_scope chapter_id base_revision_id db ≡ ok chapter
    → chapter.id ≡ chapter_id
unfolding require_scope
require_scope-id chapter_id base_revision_id db {chapter} h =
    elim (Option-cases (find_where (λ c. c.id == chapter_id) db.chapters)) [
      | inl absent ↦ absurd (ground (arith, h, absent))
      | inr (c, found) ↦
          let hit : (c.id == chapter_id) ≡ true =
            find_where_found (λ d. d.id == chapter_id) db.chapters found in
          let same : c ≡ chapter = ground (arith, h, found) in
          ap (λ d. d.id) (sym same) ∙ ground (arith, hit)
    ]

pub load-write :
    (chapter_id : ℕ) (chapter : Chapter) (base_revision_id : ℕ) (content : Content) (new_id : ℕ)
    (db : Db) (row : Option WorkspaceDraft) {result : WorkspaceDraft}
    → chapter.id ≡ chapter_id
    → load chapter_id base_revision_id db ≡ row
    → (write_row row chapter base_revision_id content new_id db).0 ≡ ok result
    → load chapter_id base_revision_id
        ((write_row row chapter base_revision_id content new_id db).1)
      ≡ some (written row chapter base_revision_id content new_id)
unfolding load add_row update_row
load-write chapter_id chapter base_revision_id content new_id db none same h k =
    let row = first_row chapter base_revision_id content new_id in
    elim (Bool-cases (is_some (find_where (breaks_unique row) db.workspace_drafts))) [
      | inl clash ↦ absurd (ground (arith, k, clash))
      | inr free ↦ rw free (
          find_where-append (is_in_scope chapter_id base_revision_id) db.workspace_drafts row h
            (ground (arith, same)))
    ]
load-write chapter_id chapter base_revision_id content new_id db (some row) same h k =
    find_where-update (is_in_scope chapter_id base_revision_id) (λ d. d.id == row.id)
      (next_row content) db.workspace_drafts (λ y. refl) h (ground arith)

-- The operation that writes returns the row, or leaves the tables.
pub write_row-result :
    (chapter : Chapter) (base_revision_id : ℕ) (content : Content) (new_id : ℕ) (db : Db)
    (row : Option WorkspaceDraft) {result : WorkspaceDraft}
    → (write_row row chapter base_revision_id content new_id db).0 ≡ ok result
    → result ≡ written row chapter base_revision_id content new_id
unfolding add_row update_row
write_row-result chapter base_revision_id content new_id db none h = ground (arith, h)
write_row-result chapter base_revision_id content new_id db (some row) h = ground (arith, h)

pub write_row-err :
    (row : Option WorkspaceDraft) (chapter : Chapter) (base_revision_id : ℕ) (content : Content)
    (new_id : ℕ) (db : Db) {e : DraftError}
    → (write_row row chapter base_revision_id content new_id db).0 ≡ err e
    → write_row row chapter base_revision_id content new_id db ≡ (err e, db)
unfolding add_row update_row
write_row-err none chapter base_revision_id content new_id db h =
    elim (Bool-cases (
      is_some (
        find_where (breaks_unique (first_row chapter base_revision_id content new_id))
          db.workspace_drafts))) [
            | inl clash ↦ rw (add_row, clash) (ground (arith, h, clash))
            | inr free ↦ absurd (ground (arith, h, free))
          ]
write_row-err (some row) chapter base_revision_id content new_id db h = absurd (ground (arith, h))

pub Result-cases :
    {A : Type 0} (r : Result A) → ((a : A) × (r ≡ ok a)) ⊎ ((e : DraftError) × (r ≡ err e))
Result-cases (ok a) = inl (a, refl)
Result-cases (err e) = inr (e, refl)

module _ (encoded_length : Content → ℕ) where
  pub normalize_content-ok :
      (content : Content) {normalized : Content}
      → normalize_content encoded_length content ≡ ok normalized
      → normalize_from [] content ≡ ok normalized
  normalize_content-ok content {normalized} h = elim (Result-cases (normalize_from [] content)) [
    | inr (e, invalid) ↦ absurd (ground (arith, h, invalid))
    | inl (n, valid) ↦ ground (arith, h, valid)
  ]

module _ (base_revision_id : ℕ) where
  pub written-content :
      (row : Option WorkspaceDraft) (chapter : Chapter) (content : Content) (new_id : ℕ)
      → (written row chapter base_revision_id content new_id).content_json ≡ content
  written-content none chapter content new_id = refl
  written-content (some row) chapter content new_id = refl
