-- ===== src/Translation/Content.antt =====
-- The content of a draft, a dict of texts by segment id, and `_normalize_content` of
-- backend/app/modules/translation/drafts.py. A dict is the list of its entries in order of insertion. The size of a
-- content as JSON in UTF-8 is a parameter; that keys and values are texts is a matter of types here.
pub mod Laws
use truyenaudio_studio.Prelude.{
  ℕ, Bool, true, false, ◌||◌, ◌&&◌, Option, none, some, List, [], ◌∷◌, ◌++◌, ltb, ◌==◌,
  if◌then◌else◌, coalesce, update_where,
}
use truyenaudio_studio.Translation.Text.{Text, is_space, has_text}
use truyenaudio_studio.Translation.Normalize.{rstrip}

-- `==` of two texts.
abbrev pub text_eq : Text → Text → Bool
text_eq [] [] = true
text_eq (c ∷ cs) (d ∷ ds) = c == d && text_eq cs ds
text_eq _ _ = false

unfoldable pub lstrip : Text → Text
lstrip [] = []
lstrip (c ∷ cs) = let rest = lstrip cs in if is_space c then rest else c ∷ cs

-- str.strip()
abbrev pub strip : Text → Text
strip t = rstrip (lstrip t)

pub record Entry : Type 0 where
  pub segment_id : Text
  pub text : Text

abbrev pub Content : Type 0
Content = List Entry

-- content.get(key)
unfoldable pub get : Text → Content → Option Text
get key [] = none
get key (e ∷ es) = let rest = get key es in if text_eq e.segment_id key then some e.text else rest

-- content[key] = value: in the place of the key, or at the end.
unfoldable pub put : Text → Text → Content → Content
put key value [] = record { segment_id = key; text = value } ∷ []
put key value (e ∷ es) =
    let rest = put key value es in
    if text_eq e.segment_id key
    then record { segment_id = e.segment_id; text = value } ∷ es
    else e ∷ rest

pub data DraftError : Type 0 where
  chapter_not_found base_revision_not_found draft_segment_unknown draft_segment_id_invalid :
      DraftError
  draft_too_large draft_revision_conflict integrity_error : DraftError

pub data Result (A : Type 0) : Type 0 where
  ok : A → Result A
  err : DraftError → Result A

-- The loop of `_normalize_content`.
unfoldable pub normalize_from : Content → Content → Result Content
normalize_from normalized [] = ok normalized
normalize_from normalized (e ∷ es) =
    let rest = normalize_from (put (strip e.segment_id) e.text normalized) es in
    if has_text e.segment_id then rest else err draft_segment_id_invalid

abbrev pub max_draft_bytes : ℕ
max_draft_bytes = 1048576

module _ (encoded_length : Content → ℕ) where
  abbrev pub check_size : Result Content → Result Content
  check_size (err e) = err e
  check_size (ok normalized) =
      if ltb max_draft_bytes (encoded_length normalized) then err draft_too_large else ok normalized

  abbrev pub normalize_content : Content → Result Content
  normalize_content content = check_size (normalize_from [] content)
