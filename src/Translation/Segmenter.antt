-- ===== src/Translation/Segmenter.antt =====
-- backend/app/modules/translation/segmenter.py: a chapter's text is split into paragraphs, sentences and, where
-- a sentence is too long, parts of sentences, and these units are packed into segments.
pub mod Sentences
pub mod Paragraphs
pub mod Split
pub mod Pieces
pub mod Tidy
pub mod Units
pub mod Order
use truyenaudio_studio.Prelude.{
  ℕ, zero, suc, ◌+◌, ◌-◌, Bool, true, false, ◌||◌, ◌&&◌, not, Option, none, some, List, [], ◌∷◌,
  ◌++◌, map, ltb, leb, ◌==◌, if◌then◌else◌,
}
use truyenaudio_studio.Prelude.Lists.{length}
use truyenaudio_studio.Translation.Text.{
  Text, is_space, is_newline, is_empty, has_text, join, newlines, is_han, han_count,
}

-- 。！？!?…
unfoldable pub is_sentence_ending : ℕ → Bool
is_sentence_ending c = c == 12290 || c == 65281 || c == 65311 || c == 33 || c == 63 || c == 8230

-- “「『《
unfoldable pub is_open_quote : ℕ → Bool
is_open_quote c = c == 8220 || c == 12300 || c == 12302 || c == 12298

-- ”」』》
unfoldable pub is_close_quote : ℕ → Bool
is_close_quote c = c == 8221 || c == 12301 || c == 12303 || c == 12299

-- ，,；;、
unfoldable pub is_long_split_mark : ℕ → Bool
is_long_split_mark c = c == 65292 || c == 44 || c == 65307 || c == 59 || c == 12289

pub data Kind : Type 0 where
  source long_sentence_split : Kind

-- `_Unit`
pub record Piece : Type 0 where
  pub text : Text
  pub paragraph_index : ℕ
  pub kind : Kind

abbrev pub texts : List Piece → List Text
texts [] = []
texts (u ∷ us) = u.text ∷ texts us

pub record SegmentDraft : Type 0 where
  pub segment_index : ℕ
  pub paragraph_start : ℕ
  pub paragraph_end : ℕ
  pub source_text : Text
  pub source_sha256 : ℕ
  pub segment_kind : Kind

-- The parts of `re.split(r"(\n{2,})", text)` that are not empty: runs of two newlines or more, and the
-- texts between them.
pub data Part : Type 0 where
  run : ℕ → Part
  body : Text → Part

abbrev pub add_body : Text → List Part → List Part
add_body [] ps = ps
add_body (c ∷ cs) ps = body (c ∷ cs) ∷ ps

-- The text behind `current` is scanned after `n` newlines.
unfoldable pub parts_from : Text → ℕ → Text → List Part
parts_from current n [] =
    if leb 2 n then add_body current (run n ∷ []) else add_body (current ++ newlines n) []
parts_from current n (c ∷ cs) =
    let rest =
      parts_from
        (if is_newline c
          then current
          else if leb 2 n
          then c ∷ []
          else current ++ (newlines n ++ c ∷ []))
        (if is_newline c then suc n else 0) cs in
    if not (is_newline c) && leb 2 n then add_body current (run n ∷ rest) else rest

abbrev pub split_parts : Text → List Part
split_parts text = parts_from [] 0 text

-- A paragraph with the newlines before it and its index.
pub record Paragraph : Type 0 where
  pub before : Text
  pub content : Text
  pub index : ℕ

-- The loop of `_paragraphs_with_prefixes` with pending_prefix and paragraph_index.
unfoldable pub paragraphs_from : Text → ℕ → List Part → List Paragraph
paragraphs_from pending i [] =
    if is_empty pending then [] else record { before = pending; content = []; index = i - 1 } ∷ []
paragraphs_from pending i (run n ∷ ps) = paragraphs_from (pending ++ newlines n) i ps
paragraphs_from pending i (body b ∷ ps) =
    record { before = pending; content = b; index = i } ∷ paragraphs_from [] (suc i) ps

unfoldable pub paragraphs_with_prefixes : Text → List Paragraph
unfolding parts_from
paragraphs_with_prefixes text = paragraphs_from [] 0 (split_parts text)

abbrev pub depth_after : ℕ → ℕ → ℕ
depth_after depth c =
    if is_open_quote c
    then suc depth
    else if is_close_quote c && ltb 0 depth
    then depth - 1
    else depth

abbrev pub ends_sentence : Option ℕ → Bool
ends_sentence none = false
ends_sentence (some c) = is_sentence_ending c

-- `split_after_char`, with the depth after the character.
abbrev pub splits_after : ℕ → Option ℕ → ℕ → Bool
splits_after depth last_non_space c =
    (is_sentence_ending c && depth == 0)
    || (is_close_quote c && (depth == 0 && ends_sentence last_non_space))

-- The loop of `_sentences`; `current` is paragraph[start:index].
unfoldable pub sentences_from : Text → ℕ → Option ℕ → Text → List Text
sentences_from current depth last [] = if has_text current then current ∷ [] else []
sentences_from current depth last (c ∷ cs) =
    let depth' = depth_after depth c in
    let here = current ++ c ∷ [] in
    let cut = splits_after depth' last c in
    let rest =
      sentences_from (if cut then [] else here) depth' (if is_space c then last else some c) cs in
    if cut && has_text here then here ∷ rest else rest

abbrev pub sentences : Text → List Text
sentences paragraph = sentences_from [] 0 none paragraph

abbrev pub or_else : Option ℕ → ℕ → ℕ
or_else none n = n
or_else (some m) n = m

-- The mark index after a character, with han_seen counting it.
abbrev pub mark_after : ℕ → ℕ → ℕ → Option ℕ → ℕ → Option ℕ
mark_after max_han i han_seen last_mark c =
    if is_long_split_mark c && (ltb 0 han_seen && leb han_seen max_han)
    then some (suc i)
    else last_mark

abbrev pub han_after : ℕ → ℕ → ℕ
han_after han_seen c = if is_han c then suc han_seen else han_seen

-- The loop of `_best_long_split_index` at index `i`.
unfoldable pub best_from : ℕ → ℕ → ℕ → Option ℕ → Text → ℕ
best_from max_han i han_seen last_mark [] = or_else last_mark i
best_from max_han i han_seen last_mark (c ∷ cs) =
    let seen = han_after han_seen c in
    let mark = mark_after max_han i seen last_mark c in
    let rest = best_from max_han (suc i) seen mark cs in
    if leb max_han seen then or_else mark (suc i) else rest

abbrev pub best_long_split_index : Text → ℕ → ℕ
best_long_split_index text max_han = best_from max_han 0 0 none text

-- text[:n] and text[n:]
unfoldable pub take : ℕ → Text → Text
take zero cs = []
take (suc n) [] = []
take (suc n) (c ∷ cs) = c ∷ take n cs

unfoldable pub drop : ℕ → Text → Text
drop zero cs = cs
drop (suc n) [] = []
drop (suc n) (c ∷ cs) = drop n cs

abbrev pub add_text : Text → List Text → List Text
add_text [] ts = ts
add_text (c ∷ cs) ts = (c ∷ cs) ∷ ts

-- The loop of `_split_long_sentence`; each round takes at least one character, so the sentence's length
-- is fuel enough.
unfoldable pub split_from : ℕ → ℕ → Text → List Text
split_from zero max_han remaining = add_text remaining []
split_from (suc fuel) max_han remaining =
    let n = best_long_split_index remaining max_han in
    let rest = split_from fuel max_han (drop n remaining) in
    if ltb max_han (han_count remaining)
    then add_text (take n remaining) rest
    else add_text remaining []

abbrev pub split_long_sentence : Text → ℕ → List Text
split_long_sentence sentence max_han = split_from (length sentence) max_han sentence

abbrev pub pieces_of : Kind → ℕ → List Text → List Piece
pieces_of kind i [] = []
pieces_of kind i (t ∷ ts) =
    record { text = t; paragraph_index = i; kind = kind } ∷ pieces_of kind i ts

abbrev pub pieces_of_sentence : ℕ → ℕ → Text → List Piece
pieces_of_sentence max_han i sentence =
    if ltb max_han (han_count sentence)
    then pieces_of long_sentence_split i (split_long_sentence sentence max_han)
    else pieces_of source i (sentence ∷ [])

abbrev pub pieces_of_sentences : ℕ → ℕ → List Text → List Piece
pieces_of_sentences max_han i [] = []
pieces_of_sentences max_han i (s ∷ ss) =
    pieces_of_sentence max_han i s ++ pieces_of_sentences max_han i ss

-- sentences[0] = prefix + sentences[0], where there is one.
abbrev pub with_prefix : Text → List Text → List Text
with_prefix before [] = []
with_prefix before (s ∷ ss) = (before ++ s) ∷ ss

abbrev pub pieces_of_paragraph : ℕ → Paragraph → List Piece
pieces_of_paragraph max_han p =
    if is_empty p.content
    then pieces_of source p.index (p.before ∷ [])
    else pieces_of_sentences max_han p.index (with_prefix p.before (sentences p.content))

abbrev pub pieces_of_paragraphs : ℕ → List Paragraph → List Piece
pieces_of_paragraphs max_han [] = []
pieces_of_paragraphs max_han (p ∷ ps) =
    pieces_of_paragraph max_han p ++ pieces_of_paragraphs max_han ps

unfoldable pub units_for_source : Text → ℕ → List Piece
unfolding paragraphs_with_prefixes
units_for_source text max_han = pieces_of_paragraphs max_han (paragraphs_with_prefixes text)
