-- ===== src/Translation/Drafts.antt =====
-- backend/app/modules/translation/drafts.py over the tables it reads and writes. Each operation is one transaction: an
-- error leaves the tables as they were. The tables are those that the session sees, so `commit` makes no difference here.
pub mod Loads
pub mod Saving
pub mod Stream
pub mod Returns
use truyenaudio_studio.Prelude.{
  ℕ, zero, suc, ◌+◌, Bool, true, false, ◌||◌, ◌&&◌, not, Option, none, some, List, [], ◌∷◌, ◌++◌,
  ltb, ◌==◌, if◌then◌else◌, is_some, opt_eq, find_where, update_where,
}
use truyenaudio_studio.Prelude.Lists.{length}
use truyenaudio_studio.Translation.Text.{Text, is_empty}
use truyenaudio_studio.Translation.Content.{
  Entry, Content, text_eq, get, put, Result, ok, err, DraftError, chapter_not_found,
  base_revision_not_found, draft_segment_unknown, draft_revision_conflict, integrity_error,
  normalize_content,
}

pub record Chapter : Type 0 where
  pub id : ℕ
  pub project_id : ℕ

pub record SourceRevision : Type 0 where
  pub id : ℕ
  pub chapter_id : ℕ

pub record SourceSegment : Type 0 where
  pub id : Text
  pub source_revision_id : ℕ

pub record WorkspaceDraft : Type 0 where
  pub id : ℕ
  pub project_id : ℕ
  pub chapter_id : ℕ
  pub base_revision_id : ℕ
  pub content_json : Content
  pub revision : ℕ

pub record Db : Type 0 where
  pub chapters : List Chapter
  pub source_revisions : List SourceRevision
  pub source_segments : List SourceSegment
  pub workspace_drafts : List WorkspaceDraft

pub record DraftView : Type 0 where
  pub id : ℕ
  pub project_id : ℕ
  pub chapter_id : ℕ
  pub base_revision_id : ℕ
  pub content : Content
  pub revision : ℕ

abbrev pub view : WorkspaceDraft → DraftView
view row = record {
  id = row.id;
  project_id = row.project_id;
  chapter_id = row.chapter_id;
  base_revision_id = row.base_revision_id;
  content = row.content_json;
  revision = row.revision;
}

pub data AppendStatus : Type 0 where
  applied duplicate gap : AppendStatus

pub record DraftAppendResult : Type 0 where
  pub status : AppendStatus
  pub offset : ℕ
  pub text : Text
  pub revision : Option ℕ

abbrev pub is_in_scope : ℕ → ℕ → WorkspaceDraft → Bool
is_in_scope chapter_id base_revision_id d =
    d.chapter_id == chapter_id && d.base_revision_id == base_revision_id

-- `_load`
unfoldable pub load : ℕ → ℕ → Db → Option WorkspaceDraft
load chapter_id base_revision_id db =
    find_where (is_in_scope chapter_id base_revision_id) db.workspace_drafts

unfoldable pub restore_draft : ℕ → ℕ → Db → Option DraftView
restore_draft chapter_id base_revision_id db = elim (load chapter_id base_revision_id db) [
  | none ↦ none
  | some row ↦ some (view row)
]

-- The chapter of the operation, when the base revision is one of its revisions.
unfoldable pub require_scope : ℕ → ℕ → Db → Result Chapter
require_scope chapter_id base_revision_id db =
    elim (find_where (λ c. c.id == chapter_id) db.chapters) [
      | none ↦ err chapter_not_found
      | some chapter ↦ elim (find_where (λ r. r.id == base_revision_id) db.source_revisions) [
        | none ↦ err base_revision_not_found
        | some revision ↦
            if revision.chapter_id == chapter.id then ok chapter else err base_revision_not_found
      ]
    ]

abbrev pub is_known : ℕ → Db → Text → Bool
is_known base_revision_id db segment_id = is_some (
    find_where (λ s. s.source_revision_id == base_revision_id && text_eq s.id segment_id)
      db.source_segments)

-- `_require_known_segments`
abbrev pub all_known : ℕ → Db → Content → Bool
all_known base_revision_id db [] = true
all_known base_revision_id db (e ∷ es) =
    is_known base_revision_id db e.segment_id && all_known base_revision_id db es

-- The segment of that id belongs to the base revision.
unfoldable pub is_of_revision : ℕ → Text → Db → Bool
is_of_revision base_revision_id segment_id db =
    elim (find_where (λ s. text_eq s.id segment_id) db.source_segments) [
      | none ↦ false
      | some segment ↦ segment.source_revision_id == base_revision_id
    ]

-- The primary key and the unique key of workspace_drafts.
abbrev pub breaks_unique : WorkspaceDraft → WorkspaceDraft → Bool
breaks_unique row d =
    d.id == row.id
    || (d.project_id == row.project_id && is_in_scope row.chapter_id row.base_revision_id d)

abbrev pub first_row : Chapter → ℕ → Content → ℕ → WorkspaceDraft
first_row chapter base_revision_id content new_id = record {
  id = new_id;
  project_id = chapter.project_id;
  chapter_id = chapter.id;
  base_revision_id = base_revision_id;
  content_json = content;
  revision = 1;
}

unfoldable pub add_row : WorkspaceDraft → Db → Result WorkspaceDraft × Db
add_row row db =
    if is_some (find_where (breaks_unique row) db.workspace_drafts)
    then (err integrity_error, db)
    else (ok row, record db { workspace_drafts = db.workspace_drafts ++ row ∷ [] })

abbrev pub next_row : Content → WorkspaceDraft → WorkspaceDraft
next_row content d = record d { content_json = content; revision = suc d.revision }

unfoldable pub update_row : WorkspaceDraft → Content → Db → Result WorkspaceDraft × Db
update_row row content db = (
  ok (next_row content row),
  record db {
    workspace_drafts = update_where (λ d. d.id == row.id) (next_row content) db.workspace_drafts;
  },
)

-- The row is created, or its content replaced.
abbrev pub write_row :
    Option WorkspaceDraft → Chapter → ℕ → Content → ℕ → Db → Result WorkspaceDraft × Db
write_row none chapter base_revision_id content new_id db =
    add_row (first_row chapter base_revision_id content new_id) db
write_row (some row) chapter base_revision_id content new_id db = update_row row content db

-- `expected_revision` agrees with the row that is stored.
abbrev pub is_expected : Option WorkspaceDraft → Option ℕ → Bool
is_expected none expected_revision =
    opt_eq expected_revision none || opt_eq expected_revision (some 0)
is_expected (some row) expected_revision = opt_eq expected_revision (some row.revision)

abbrev pub to_view : Result WorkspaceDraft × Db → Result DraftView × Db
to_view (ok row, db) = (ok (view row), db)
to_view (err e, db) = (err e, db)

abbrev pub or_empty : Option Text → Text
or_empty none = []
or_empty (some t) = t

abbrev pub existing_text : Text → Option WorkspaceDraft → Text
existing_text segment_id none = []
existing_text segment_id (some row) = or_empty (get segment_id row.content_json)

abbrev pub content_of : Option WorkspaceDraft → Content
content_of none = []
content_of (some row) = row.content_json

abbrev pub revision_of : Option WorkspaceDraft → Option ℕ
revision_of none = none
revision_of (some row) = some row.revision

abbrev pub append_result : AppendStatus → Text → Option WorkspaceDraft → DraftAppendResult
append_result status text row = record {
  status = status;
  offset = length text;
  text = text;
  revision = revision_of row;
}

abbrev pub to_applied : Text → Result WorkspaceDraft × Db → Result DraftAppendResult × Db
to_applied updated (ok row, db) = (ok (append_result applied updated (some row)), db)
to_applied updated (err e, db) = (err e, db)

-- The offset of a delta before, at or behind the stored length.
pub data Position : Type 0 where
  before at behind : Position

abbrev pub position : Option ℕ → ℕ → Position
position none current = at
position (some offset) current =
    if ltb offset current then before else if ltb current offset then behind else at

module _ (encoded_length : Content → ℕ) where
  unfoldable pub save_draft : ℕ → ℕ → Content → Option ℕ → ℕ → Db → Result DraftView × Db
  save_draft chapter_id base_revision_id content expected_revision new_id db =
      elim (require_scope chapter_id base_revision_id db) [
        | err e ↦ (err e, db)
        | ok chapter ↦ elim (normalize_content encoded_length content) [
          | err e ↦ (err e, db)
          | ok normalized ↦
              let row = load chapter_id base_revision_id db in
              if not (all_known base_revision_id db normalized)
              then (err draft_segment_unknown, db)
              else if not (is_expected row expected_revision)
              then (err draft_revision_conflict, db)
              else to_view (write_row row chapter base_revision_id normalized new_id db)
        ]
      ]

  -- The new text is normalized with the others and stored.
  unfoldable pub apply_delta :
      Option WorkspaceDraft → Chapter → ℕ → Text → Text → ℕ → Db → Result DraftAppendResult × Db
  apply_delta row chapter base_revision_id segment_id updated new_id db =
      elim (normalize_content encoded_length (put segment_id updated (content_of row))) [
        | err e ↦ (err e, db)
        | ok normalized ↦
            to_applied updated (write_row row chapter base_revision_id normalized new_id db)
      ]

  abbrev pub append_to :
      Position
      → Option WorkspaceDraft
      → Chapter
      → ℕ
      → Text
      → Text
      → ℕ
      → Db
      → Result DraftAppendResult × Db
  append_to before row chapter base_revision_id segment_id delta new_id db =
      (ok (append_result duplicate (existing_text segment_id row) row), db)
  append_to behind row chapter base_revision_id segment_id delta new_id db =
      (ok (append_result gap (existing_text segment_id row) row), db)
  append_to at row chapter base_revision_id segment_id delta new_id db =
      let existing = existing_text segment_id row in
      if is_empty delta
      then (ok (append_result duplicate existing row), db)
      else apply_delta row chapter base_revision_id segment_id (existing ++ delta) new_id db

  unfoldable pub append_draft_delta :
      ℕ → ℕ → Text → Text → Option ℕ → ℕ → Db → Result DraftAppendResult × Db
  append_draft_delta chapter_id base_revision_id segment_id delta offset new_id db =
      elim (require_scope chapter_id base_revision_id db) [
        | err e ↦ (err e, db)
        | ok chapter ↦
            let row = load chapter_id base_revision_id db in
            if not (is_of_revision base_revision_id segment_id db)
            then (err draft_segment_unknown, db)
            else append_to (position offset (length (existing_text segment_id row))) row chapter
                base_revision_id segment_id delta new_id db
      ]
