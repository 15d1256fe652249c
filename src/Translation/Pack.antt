-- ===== src/Translation/Pack.antt =====
-- The packing half of backend/app/modules/translation/segmenter.py, and `segment_source`. The limits are
-- naturals; SHA-256 of a text is a parameter.
pub mod Segments
use truyenaudio_studio.Prelude.{
  ℕ, zero, suc, ◌+◌, Bool, true, false, ◌||◌, ◌&&◌, not, List, [], ◌∷◌, ◌++◌, ltb, leb, ◌==◌,
  if◌then◌else◌,
}
use truyenaudio_studio.Translation.Text.{Text, han_count, join}
use truyenaudio_studio.Translation.Segmenter.{
  Kind, source, long_sentence_split, Piece, texts, SegmentDraft, units_for_source,
}

abbrev pub is_long : Kind → Bool
is_long long_sentence_split = true
is_long source = false

abbrev pub any_long : List Piece → Bool
any_long [] = false
any_long (u ∷ us) = is_long u.kind || any_long us

-- The paragraph index of the last unit.
abbrev pub last_paragraph : Piece → List Piece → ℕ
last_paragraph u [] = u.paragraph_index
last_paragraph u (v ∷ us) = last_paragraph v us

-- The units collected so far, as the first of them and the others.
pub data Current : Type 0 where
  nothing : Current
  units : Piece → List Piece → Current

abbrev pub add_piece : Current → Piece → Current
add_piece nothing u = units u []
add_piece (units v us) u = units v (us ++ u ∷ [])

abbrev pub current_text : Current → Text
current_text nothing = []
current_text (units u us) = join (texts (u ∷ us))

abbrev pub is_nothing : Current → Bool
is_nothing nothing = true
is_nothing (units u us) = false

abbrev pub should_flush : ℕ → ℕ → ℕ → ℕ → ℕ → Bool
should_flush current_han next_han min_han target_han max_han =
    if ltb max_han (current_han + next_han)
    then true
    else leb min_han current_han && ltb target_han (current_han + next_han)

pub data Result (A : Type 0) : Type 0 where
  ok : A → Result A
  limits_must_be_positive limits_invalid : Result A

module _ (hexdigest : Text → ℕ) where
  -- `_draft`
  abbrev pub draft : ℕ → Piece → List Piece → SegmentDraft
  draft segment_index u us = record {
    segment_index = segment_index;
    paragraph_start = u.paragraph_index;
    paragraph_end = last_paragraph u us;
    source_text = join (texts (u ∷ us));
    source_sha256 = hexdigest (join (texts (u ∷ us)));
    segment_kind = if any_long (u ∷ us) then long_sentence_split else source;
  }

  abbrev pub emit : ℕ → Current → List SegmentDraft → List SegmentDraft
  emit i nothing rest = rest
  emit i (units u us) rest = draft i u us ∷ rest

  module _ (min_han target_han max_han : ℕ) where
    -- The loop of `_pack_units` with first_index + len(packed), current and current_han.
    unfoldable pub pack_from : ℕ → Current → ℕ → List Piece → List SegmentDraft
    pack_from i current current_han [] = emit i current []
    pack_from i current current_han (u ∷ us) =
        let unit_han = han_count u.text in
        let flush =
          not (is_nothing current)
          && should_flush current_han unit_han min_han target_han max_han in
        let rest =
          pack_from (if flush then suc i else i) (if flush then units u [] else add_piece current u)
            (if flush then unit_han else current_han + unit_han) us in
        if flush then emit i current rest else rest

    unfoldable pub segment_source : Text → Result (List SegmentDraft)
    segment_source text =
        if min_han == 0 || target_han == 0 || max_han == 0
        then limits_must_be_positive
        else if ltb target_han min_han || ltb max_han target_han
        then limits_invalid
        else ok (pack_from 0 nothing 0 (units_for_source text max_han))
