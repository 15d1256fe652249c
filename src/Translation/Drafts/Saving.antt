-- ===== src/Translation/Drafts/Saving.antt =====
-- `save_draft`: the compare-and-set on the revision, and what is restored after it.
use truyenaudio_studio.Prelude.{
  ℕ, suc, ◌≡◌, refl, sym, ap, ◌∙◌, subst, Bool, true, false, Option, none, some, [], arith,
  Bool-cases, inl, inr,
}
use truyenaudio_studio.Translation.Content.{Content, Result, ok, err, normalize_content}
use truyenaudio_studio.Translation.Content.Laws.{IsDict, normalize_from-IsDict}
use truyenaudio_studio.Translation.Drafts.{
  Chapter, WorkspaceDraft, DraftView, Db, view, load, restore_draft, require_scope, write_row,
  all_known, is_expected, to_view, save_draft,
}
use truyenaudio_studio.Translation.Drafts.Loads.{
  normalize_content-ok, Result-cases, written-content, written, require_scope-id, load-write,
  write_row-result,
}

abbrev pub is_ok : {A : Type 0} → Result A → Bool
is_ok (ok a) = true
is_ok (err e) = false

pub ok-inj : {A : Type 0} {a b : A} → ok a ≡ ok b → a ≡ b
ok-inj {A} {a} {b} h = ap (λ r. elim r [ ok c ↦ c | err e ↦ a ]) h

abbrev pub or_zero : Option ℕ → ℕ
or_zero none = 0
or_zero (some n) = n

module _ (encoded_length : Content → ℕ) (chapter_id base_revision_id : ℕ) where
  -- A save that returns has written, and its expectation was met.
  abbrev Writes : Content → Option ℕ → ℕ → Db → Type 0
  Writes content expected_revision new_id db =
      (chapter : Chapter) × (normalized : Content) × IsDict normalized
      × (chapter.id ≡ chapter_id)
      × (is_expected (load chapter_id base_revision_id db) expected_revision ≡ true)
      × (save_draft encoded_length chapter_id base_revision_id content expected_revision new_id db
          ≡ to_view (
              write_row (load chapter_id base_revision_id db) chapter base_revision_id normalized
                new_id db))

  save_draft-Writes :
      (content : Content) (expected_revision : Option ℕ) (new_id : ℕ) (db : Db)
      → is_ok (
          (save_draft encoded_length chapter_id base_revision_id content expected_revision new_id
            db).0)
        ≡ true
      → Writes content expected_revision new_id db
  unfolding save_draft
  save_draft-Writes content expected_revision new_id db h =
      elim (Result-cases (require_scope chapter_id base_revision_id db)) [
        | inr (e, missing) ↦ absurd (ground (arith, h, missing))
        | inl (chapter, scope) ↦ elim (Result-cases (normalize_content encoded_length content)) [
          | inr (e, invalid) ↦ absurd (ground (arith, h, scope, invalid))
          | inl (normalized, valid) ↦ elim (Bool-cases (all_known base_revision_id db normalized)) [
            | inr unknown ↦ absurd (ground (arith, h, scope, valid, unknown))
            | inl known ↦
                elim (Bool-cases
                  (is_expected (load chapter_id base_revision_id db) expected_revision)) [
                    | inr stale ↦ absurd (ground (arith, h, scope, valid, known, stale))
                    | inl met ↦ (
                      chapter,
                      normalized,
                      normalize_from-IsDict [] content tt
                          (normalize_content-ok encoded_length content valid),
                      require_scope-id chapter_id base_revision_id db {chapter = chapter} scope,
                      met,
                      rw (save_draft, scope) (rw valid (rw known (rw met refl))),
                    )
                  ]
          ]
        ]
      ]

  written-revision :
      (row : Option WorkspaceDraft) (expected_revision : Option ℕ) (chapter : Chapter)
      (content : Content) (new_id : ℕ)
      → is_expected row expected_revision ≡ true
      → (written row chapter base_revision_id content new_id).revision
        ≡ suc (or_zero expected_revision)
  written-revision none none chapter content new_id h = refl
  written-revision none (some n) chapter content new_id h = ground (arith, h)
  written-revision (some row) none chapter content new_id h = cc
  written-revision (some row) (some n) chapter content new_id h = ground (arith, h)

  to_view-ok :
      (w : Result WorkspaceDraft × Db)
      → is_ok ((to_view w).0) ≡ true
      → (row : WorkspaceDraft) × (w.0 ≡ ok row) × (to_view w ≡ (ok (view row), w.1))
  to_view-ok (ok row, db) h = (row, refl, refl)
  to_view-ok (err e, db) h = cc

  abbrev Stores : Option ℕ → Result DraftView × Db → Type 0
  Stores expected_revision (result, after) =
      (row : WorkspaceDraft) × (load chapter_id base_revision_id after ≡ some row)
      × (result ≡ ok (view row))
      × IsDict row.content_json
      × (row.revision ≡ suc (or_zero expected_revision))

  to_view-Stores :
      (chapter : Chapter) (content : Content) (expected_revision : Option ℕ) (new_id : ℕ) (db : Db)
      → IsDict content
      → chapter.id ≡ chapter_id
      → is_expected (load chapter_id base_revision_id db) expected_revision ≡ true
      → is_ok (
          (to_view (
            write_row
              (load chapter_id base_revision_id db)
              chapter
              base_revision_id
              content
              new_id
              db)).0)
        ≡ true
      → Stores expected_revision (
          to_view (
            write_row
              (load chapter_id base_revision_id db)
              chapter
              base_revision_id
              content
              new_id
              db))
  to_view-Stores chapter content expected_revision new_id db dict same met h =
      let row = load chapter_id base_revision_id db in
      let (result, returns, viewed) =
        to_view-ok (write_row row chapter base_revision_id content new_id db) h in
      let is_written = write_row-result chapter base_revision_id content new_id db row returns in
      subst (Stores expected_revision) (sym viewed) (
        result,
        load-write chapter_id chapter base_revision_id content new_id db row same refl returns
            ∙ ap some (sym is_written),
        refl,
        subst IsDict
            (sym (
              ap (λ r. r.content_json) is_written
              ∙ written-content base_revision_id row chapter content new_id))
            dict,
        ap (λ r. r.revision) is_written
            ∙ written-revision row expected_revision chapter content new_id met,
      )

  save_draft-Stores :
      (content : Content) (expected_revision : Option ℕ) (new_id : ℕ) (db : Db)
      → is_ok (
          (save_draft encoded_length chapter_id base_revision_id content expected_revision new_id
            db).0)
        ≡ true
      → Stores expected_revision (
          save_draft encoded_length chapter_id base_revision_id content expected_revision new_id db)
  save_draft-Stores content expected_revision new_id db h =
      let (chapter, normalized, dict, same, met, returns) =
        save_draft-Writes content expected_revision new_id db h in
      subst (Stores expected_revision) (sym returns) (
        to_view-Stores chapter normalized expected_revision new_id db dict same met
          (ap (λ w. is_ok (w.0)) (sym returns) ∙ h))

  save_draft-stale :
      (content : Content) (expected_revision : Option ℕ) (new_id : ℕ) (db : Db)
      → is_expected (load chapter_id base_revision_id db) expected_revision ≡ false
      → (is_ok (
            (save_draft encoded_length chapter_id base_revision_id content expected_revision new_id
              db).0)
          ≡ false)
        × ((save_draft encoded_length chapter_id base_revision_id content expected_revision new_id
              db).1
            ≡ db)
  unfolding save_draft
  save_draft-stale content expected_revision new_id db stale =
      elim (Result-cases (require_scope chapter_id base_revision_id db)) [
        | inr (e, missing) ↦ rw (save_draft, missing) (refl, refl)
        | inl (chapter, scope) ↦ elim (Result-cases (normalize_content encoded_length content)) [
          | inr (e, invalid) ↦ rw (save_draft, scope) (rw invalid (refl, refl))
          | inl (normalized, valid) ↦ elim (Bool-cases (all_known base_revision_id db normalized)) [
            | inr unknown ↦ rw (save_draft, scope) (rw valid (rw unknown (refl, refl)))
            | inl known ↦ rw (save_draft, scope) (rw valid (rw known (rw stale (refl, refl))))
          ]
        ]
      ]

  later-unexpected :
      (expected_revision : Option ℕ) (row : WorkspaceDraft)
      → row.revision ≡ suc (or_zero expected_revision)
      → is_expected (some row) expected_revision ≡ false
  later-unexpected none row h = refl
  later-unexpected (some n) row h = ground (arith, h)

  -- When save_draft returns a view, restore_draft finds this view in the new tables, and its revision is one more than
  -- the revision that was expected, where none counts as 0.
  pub save_draft-restores :
      (content : Content) (expected_revision : Option ℕ) (new_id : ℕ) (db : Db) {saved : DraftView}
      → (save_draft encoded_length chapter_id base_revision_id content expected_revision new_id
          db).0
        ≡ ok saved
      → (restore_draft chapter_id base_revision_id (
            (save_draft encoded_length chapter_id base_revision_id content expected_revision new_id
              db).1)
          ≡ some saved)
        × (saved.revision ≡ suc (or_zero expected_revision))
  unfolding restore_draft
  save_draft-restores content expected_revision new_id db {saved} h =
      let (row, found, returns, dict, next) =
        save_draft-Stores content expected_revision new_id db (ap is_ok h) in
      let same : view row ≡ saved = ok-inj (sym returns ∙ h) in
      (rw (restore_draft, found) (ap some same), ap (λ v. v.revision) (sym same) ∙ next)

  -- When save_draft returns a view, the keys of its content are stripped and distinct.
  pub save_draft-IsDict :
      (content : Content) (expected_revision : Option ℕ) (new_id : ℕ) (db : Db) {saved : DraftView}
      → (save_draft encoded_length chapter_id base_revision_id content expected_revision new_id
          db).0
        ≡ ok saved
      → IsDict saved.content
  save_draft-IsDict content expected_revision new_id db h =
      let (row, found, returns, dict, next) =
        save_draft-Stores content expected_revision new_id db (ap is_ok h) in
      subst (λ v. IsDict v.content) (ok-inj (sym returns ∙ h)) dict

  -- Of two saves that expect the same revision only one is stored: when the first has returned a view, the second
  -- raises an error, whatever its content is, and changes nothing.
  pub save_draft-once :
      (content second : Content) (expected_revision : Option ℕ) (new_id second_id : ℕ) (db : Db)
      {saved : DraftView}
      → (save_draft encoded_length chapter_id base_revision_id content expected_revision new_id
          db).0
        ≡ ok saved
      → let after =
          (save_draft encoded_length chapter_id base_revision_id content expected_revision new_id
            db).1 in
        let again =
          save_draft encoded_length chapter_id base_revision_id second expected_revision second_id
            after in
        (is_ok again.0 ≡ false) × (again.1 ≡ after)
  save_draft-once content second expected_revision new_id second_id db h =
      let (row, found, returns, dict, next) =
        save_draft-Stores content expected_revision new_id db (ap is_ok h) in
      save_draft-stale second expected_revision second_id
        ((save_draft encoded_length chapter_id base_revision_id content expected_revision new_id
          db).1)
        (ap (λ r. is_expected r expected_revision) found
          ∙ later-unexpected expected_revision row next)
