-- ===== src/Translation/Sink.antt =====
-- backend/app/modules/translation/draft_sink.py: the counters of DraftDeltaSinkFactory round `append_draft_delta`. With
-- a bound session or one of its own, the tables are the argument `db`.
pub mod Delivery
pub mod Streams
use truyenaudio_studio.Prelude.{
  ℕ, suc, Bool, true, false, Option, some, List, [], ◌∷◌, ◌++◌, if◌then◌else◌,
}
use truyenaudio_studio.Prelude.Lists.{length}
use truyenaudio_studio.Translation.Text.{Text, is_empty}
use truyenaudio_studio.Translation.Content.{Content, Result, ok, err}
use truyenaudio_studio.Translation.Drafts.{
  Db, DraftAppendResult, AppendStatus, applied, duplicate, gap, append_draft_delta,
}

pub record Sink : Type 0 where
  pub applied_count : ℕ
  pub duplicates : ℕ
  pub gaps : ℕ

abbrev pub count_status : AppendStatus → Sink → Sink
count_status applied s = record s { applied_count = suc s.applied_count }
count_status duplicate s = record s { duplicates = suc s.duplicates }
count_status gap s = record s { gaps = suc s.gaps }

-- An exception leaves `_append` before the counters.
abbrev pub count_result : Result DraftAppendResult → Sink → Sink
count_result (err e) s = s
count_result (ok r) s = count_status r.status s

-- One call of the sink: the delta, its offset, and the identifier that a new draft would get.
pub record Frame : Type 0 where
  pub delta : Text
  pub offset : ℕ
  pub new_id : ℕ

-- A delta of the provider, with the identifier that a new draft would get.
pub record Delta : Type 0 where
  pub text : Text
  pub new_id : ℕ

-- The loop of `TranslationWorkflow._dispatch_translate` over a stream, with text; `offset` is its length.
unfoldable pub emitted : Text → List Delta → List Frame
emitted text [] = []
emitted text (d ∷ ds) =
    let rest = emitted (text ++ d.text) ds in
    if is_empty d.text
    then rest
    else record { delta = d.text; offset = length text; new_id = d.new_id } ∷ rest

-- The text that the stream builds.
abbrev pub streamed : List Delta → Text
streamed [] = []
streamed (d ∷ ds) = d.text ++ streamed ds

module _ (encoded_length : Content → ℕ) (chapter_id base_revision_id : ℕ) (segment_id : Text) where
  -- `_append`
  abbrev pub append : Frame → Sink → Db → Sink × Db
  append frame s db =
      let (result, after) =
        append_draft_delta encoded_length chapter_id base_revision_id segment_id frame.delta
          (some frame.offset) frame.new_id db in
      (count_result result s, after)

  -- The calls of a stream, in the order of delivery. The caller goes on after an exception.
  abbrev pub append_all : List Frame → Sink → Db → Sink × Db
  append_all [] s db = (s, db)
  append_all (frame ∷ frames) s db =
      let (s', after) = append frame s db in append_all frames s' after
