-- ===== src/Translation/Pack/Segments.antt =====
-- `segment_source`: its segments are the text in order, within the limit, numbered from zero.
use mathlib.Core.List.{append_assoc, append-nil}
use truyenaudio_studio.Prelude.{
  ℕ, suc, ◌+◌, ◌≤◌, ◌<◌, ◌≡◌, refl, sym, ap, ◌∙◌, Bool, true, false, ◌&&◌, not, List, [], ◌∷◌, ◌++◌,
  arith, Bool-cases, inl, inr, All, count_where,
}
use truyenaudio_studio.Translation.Text.{Text, han_count}
use truyenaudio_studio.Translation.Text.Laws.{visible, han_count-append}
use truyenaudio_studio.Translation.Text.Tidy.{is_tidy}
use truyenaudio_studio.Translation.Segmenter.{Piece, SegmentDraft, units_for_source}
use truyenaudio_studio.Translation.Segmenter.Pieces.{Fits, units_text, units_text-append}
use truyenaudio_studio.Translation.Segmenter.Units.{units-exact, units-visible, units-Fits}
use truyenaudio_studio.Translation.Segmenter.Order.{Ascends, units-Ascends}
use truyenaudio_studio.Translation.Pack.{
  Current, nothing, units, add_piece, current_text, is_nothing, should_flush, last_paragraph, emit,
  pack_from, Result, ok, limits_must_be_positive, limits_invalid, segment_source,
}

abbrev pub segments_text : List SegmentDraft → Text
segments_text [] = []
segments_text (s ∷ ss) = s.source_text ++ segments_text ss

-- The texts of the segments, where segmenting ends without an error.
abbrev pub joined : Result (List SegmentDraft) → Result Text
joined (ok segments) = ok (segments_text segments)
joined limits_must_be_positive = limits_must_be_positive
joined limits_invalid = limits_invalid

abbrev pub IsWithin : ℕ → SegmentDraft → Type 0
IsWithin max_han s = han_count s.source_text ≤ max_han

-- Numbered from `i`, each segment's paragraphs ascending, and none starting before the last one ended.
abbrev pub InOrder : ℕ → ℕ → List SegmentDraft → Type 0
InOrder i k [] = Unit
InOrder i k (s ∷ ss) =
    (s.segment_index ≡ i)
    × (k ≤ s.paragraph_start)
    × (s.paragraph_start ≤ s.paragraph_end)
    × InOrder (suc i) s.paragraph_end ss

add_piece-text :
    (current : Current) (u : Piece)
    → current_text (add_piece current u) ≡ current_text current ++ u.text
add_piece-text nothing u = append-nil u.text
add_piece-text (units v vs) u =
    units_text-append (v ∷ vs) (u ∷ []) ∙ ap (λ t. units_text (v ∷ vs) ++ t) (append-nil u.text)

-- The units collected so far ascend from `k` and the coming ones from the last of them.
abbrev Follows : ℕ → Current → List Piece → Type 0
Follows k nothing us = Ascends k us
Follows k (units v vs) us = Ascends k (v ∷ vs) × Ascends (last_paragraph v vs) us

last-le :
    (v : Piece) (vs : List Piece)
    → Ascends v.paragraph_index vs
    → v.paragraph_index ≤ last_paragraph v vs
last-le v [] h = omega arith
last-le v (w ∷ vs) (h, hs) = omega (arith, last-le w vs hs)

Ascends-snoc :
    (k : ℕ) (v : Piece) (vs : List Piece) (u : Piece)
    → Ascends k (v ∷ vs)
    → last_paragraph v vs ≤ u.paragraph_index
    → Ascends k (v ∷ (vs ++ u ∷ []))
Ascends-snoc k v [] u (h, hs) le = (h, (le, tt))
Ascends-snoc k v (w ∷ vs) u (h, hs) le = (h, Ascends-snoc v.paragraph_index w vs u hs le)

last-snoc :
    (v : Piece) (vs : List Piece) (u : Piece) → last_paragraph v (vs ++ u ∷ []) ≡ u.paragraph_index
last-snoc v [] u = refl
last-snoc v (w ∷ vs) u = last-snoc w vs u

module _ (hexdigest : Text → ℕ) where
  emit-text :
      (i : ℕ) (current : Current) (rest : List SegmentDraft)
      → segments_text (emit hexdigest i current rest) ≡ current_text current ++ segments_text rest
  emit-text i nothing rest = refl
  emit-text i (units u us) rest = refl

  All-emit :
      (max_han i : ℕ) (current : Current) (rest : List SegmentDraft)
      → han_count (current_text current) ≤ max_han
      → All (IsWithin max_han) rest
      → All (IsWithin max_han) (emit hexdigest i current rest)
  All-emit max_han i nothing rest h hs = hs
  All-emit max_han i (units u us) rest h hs = (h, hs)

  module _ (min_han target_han max_han : ℕ) where
    abbrev flushes : Current → ℕ → Piece → Bool
    flushes current han u =
        not (is_nothing current) && should_flush han (han_count u.text) min_han target_han max_han

    pack-text :
        (i : ℕ) (current : Current) (han : ℕ) (us : List Piece)
        → segments_text (pack_from hexdigest min_han target_han max_han i current han us)
          ≡ current_text current ++ units_text us
    unfolding pack_from
    pack-text i current han [] = emit-text i current []
    pack-text i current han (u ∷ us) = elim (Bool-cases (flushes current han u)) [
      | inl flush ↦ rw flush (
          emit-text i current (
            pack_from hexdigest min_han target_han max_han (suc i) (units u []) (han_count u.text)
              us)
          ∙ ap (λ t. current_text current ++ t)
              (pack-text (suc i) (units u []) (han_count u.text) us)
          ∙ ap (λ t. current_text current ++ (t ++ units_text us)) (append-nil u.text))
      | inr on ↦ rw on (
          pack-text i (add_piece current u) (han + han_count u.text) us
          ∙ ap (λ t. t ++ units_text us) (add_piece-text current u)
          ∙ append_assoc (current_text current) u.text (units_text us))
    ]

    -- The count stays within the limit unless a flush comes first.
    on-within :
        (current : Current) (han : ℕ) (u : Piece)
        → han ≡ han_count (current_text current)
        → Fits max_han u
        → flushes current han u ≡ false
        → han + han_count u.text ≤ max_han
    unfolding count_where
    on-within nothing han u e fit on = omega arith
    on-within (units v vs) han u e fit on = ground (arith, on)

    pack-IsWithin :
        (i : ℕ) (current : Current) (han : ℕ) (us : List Piece)
        → han ≡ han_count (current_text current)
        → han ≤ max_han
        → All (Fits max_han) us
        → All (IsWithin max_han) (pack_from hexdigest min_han target_han max_han i current han us)
    unfolding pack_from
    pack-IsWithin i current han [] e le h = All-emit max_han i current [] (omega arith) tt
    pack-IsWithin i current han (u ∷ us) e le (fit, fits) =
        elim (Bool-cases (flushes current han u)) [
          | inl flush ↦ rw flush (
              All-emit max_han i current
                (pack_from hexdigest min_han target_han max_han (suc i) (units u [])
                  (han_count u.text) us)
                (omega arith)
                (pack-IsWithin (suc i) (units u []) (han_count u.text) us
                  (ap han_count (sym (append-nil u.text))) fit fits))
          | inr on ↦ rw on (
              pack-IsWithin i (add_piece current u) (han + han_count u.text) us
                (omega (
                  arith,
                  ap han_count (add_piece-text current u),
                  han_count-append (current_text current) u.text,
                ))
                (on-within current han u e fit on) fits)
        ]

    pack-InOrder :
        (i k : ℕ) (current : Current) (han : ℕ) (us : List Piece)
        → Follows k current us
        → InOrder i k (pack_from hexdigest min_han target_han max_han i current han us)
    unfolding pack_from
    pack-InOrder i k nothing han [] h = tt
    pack-InOrder i k (units v vs) han [] ((h, hs), _) = (refl, h, last-le v vs hs, tt)
    pack-InOrder i k nothing han (u ∷ us) (h, hs) =
        pack-InOrder i k (units u []) (han + han_count u.text) us ((h, tt), hs)
    pack-InOrder i k (units v vs) han (u ∷ us) (hv, (h, hs)) =
        elim (Bool-cases (flushes (units v vs) han u)) [
          | inl flush ↦ rw flush (
            refl,
            hv.0,
            last-le v vs hv.1,
            pack-InOrder (suc i) (last_paragraph v vs) (units u []) (han_count u.text) us
                ((h, tt), hs),
          )
          | inr on ↦ rw on (
              pack-InOrder i k (units v (vs ++ u ∷ [])) (han + han_count u.text) us
                (Ascends-snoc k v vs u hv h, rw (last-snoc v vs u) hs))
        ]

    -- What `segment_source` returns when the limits are accepted.
    pub segment_source-ok :
        (text : Text)
        → 0 < min_han
        → min_han ≤ target_han
        → target_han ≤ max_han
        → segment_source hexdigest min_han target_han max_han text
          ≡ ok (
              pack_from hexdigest min_han target_han max_han 0 nothing 0
                (units_for_source text max_han))
    unfolding segment_source
    segment_source-ok text positive low high = ground arith

    segments-packed :
        (text : Text) (segments : List SegmentDraft)
        → segment_source hexdigest min_han target_han max_han text ≡ ok segments
        → (0 < max_han)
          × (pack_from hexdigest min_han target_han max_han 0 nothing 0
                (units_for_source text max_han)
              ≡ segments)
    unfolding segment_source
    segments-packed text segments h = (ground (arith, h), ground (arith, h))

    -- When segment_source returns segments of a text none of whose lines ends in white space, their texts join to it.
    pub segments-join :
        (text : Text) (segments : List SegmentDraft)
        → is_tidy text ≡ true
        → segment_source hexdigest min_han target_han max_han text ≡ ok segments
        → segments_text segments ≡ text
    segments-join text segments tidy h =
        let (positive, same) = segments-packed text segments h in
        ap segments_text (sym same)
        ∙ pack-text 0 nothing 0 (units_for_source text max_han)
        ∙ units-exact max_han text tidy

    -- When segment_source returns segments, they have all characters of the text that are not white space, in order.
    pub segments-visible :
        (text : Text) (segments : List SegmentDraft)
        → segment_source hexdigest min_han target_han max_han text ≡ ok segments
        → visible (segments_text segments) ≡ visible text
    segments-visible text segments h =
        let (positive, same) = segments-packed text segments h in
        ap (λ ss. visible (segments_text ss)) (sym same)
        ∙ ap visible (pack-text 0 nothing 0 (units_for_source text max_han))
        ∙ units-visible max_han text

    -- When segment_source returns segments, none of them has more Han characters than max_han.
    pub segments-IsWithin :
        (text : Text) (segments : List SegmentDraft)
        → segment_source hexdigest min_han target_han max_han text ≡ ok segments
        → All (IsWithin max_han) segments
    unfolding count_where
    segments-IsWithin text segments h =
        let (positive, same) = segments-packed text segments h in
        rw (sym same) (
          pack-IsWithin 0 nothing 0 (units_for_source text max_han) refl (omega arith)
            (units-Fits max_han text positive))

    -- When segment_source returns segments, they are numbered 0, 1, 2 and so on; each ends in the paragraph where it starts or a later
    -- one, and starts in the paragraph where the segment before it ended or a later one.
    pub segments-InOrder :
        (text : Text) (segments : List SegmentDraft)
        → segment_source hexdigest min_han target_han max_han text ≡ ok segments
        → InOrder 0 0 segments
    segments-InOrder text segments h =
        let (positive, same) = segments-packed text segments h in
        rw (sym same)
          (pack-InOrder 0 0 nothing 0 (units_for_source text max_han) (units-Ascends text max_han))
