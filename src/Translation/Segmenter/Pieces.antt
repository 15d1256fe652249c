-- ===== src/Translation/Segmenter/Pieces.antt =====
-- The units of a text: what they join to, how many Han characters they have, and in what order they come.
use mathlib.Core.List.{append_assoc, append-nil}
use truyenaudio_studio.Prelude.{
  ℕ, ◌≤◌, ◌<◌, ◌≡◌, refl, sym, ap, ◌∙◌, false, List, [], ◌∷◌, ◌++◌, arith, ltb, Bool-cases, inl,
  inr, All, All-append_rows,
}
use truyenaudio_studio.Prelude.Lists.{length}
use truyenaudio_studio.Translation.Text.{Text, has_text, join, han_count}
use truyenaudio_studio.Translation.Text.Laws.{join-append, visible, visible-append, visible-blank}
use truyenaudio_studio.Translation.Segmenter.{
  Kind, long_sentence_split, Piece, texts, split_long_sentence, pieces_of, pieces_of_sentence,
  pieces_of_sentences, with_prefix,
}
use truyenaudio_studio.Translation.Segmenter.Split.{split-join, split-IsWithin, IsWithin}

-- A unit within the limit.
abbrev pub Fits : ℕ → Piece → Type 0
Fits max_han u = han_count u.text ≤ max_han

-- The text of units.
abbrev pub units_text : List Piece → Text
units_text us = join (texts us)

texts-append : (us vs : List Piece) → texts (us ++ vs) ≡ texts us ++ texts vs
texts-append [] vs = refl
texts-append (u ∷ us) vs = ap (λ ts. u.text ∷ ts) (texts-append us vs)

pub units_text-append :
    (us vs : List Piece) → units_text (us ++ vs) ≡ units_text us ++ units_text vs
units_text-append us vs = ap join (texts-append us vs) ∙ join-append (texts us) (texts vs)

texts-pieces_of : (kind : Kind) (i : ℕ) (ts : List Text) → texts (pieces_of kind i ts) ≡ ts
texts-pieces_of kind i [] = refl
texts-pieces_of kind i (t ∷ ts) = ap (λ rest. t ∷ rest) (texts-pieces_of kind i ts)

module _ (max_han i : ℕ) where
  sentence-text : (s : Text) → units_text (pieces_of_sentence max_han i s) ≡ s
  sentence-text s = elim (Bool-cases (ltb max_han (han_count s))) [
    | inl long ↦ rw long (
        ap join (texts-pieces_of long_sentence_split i (split_long_sentence s max_han))
        ∙ split-join (length s) max_han s)
    | inr short ↦ rw short (append-nil s)
  ]

  sentences-text : (ss : List Text) → units_text (pieces_of_sentences max_han i ss) ≡ join ss
  sentences-text [] = refl
  sentences-text (s ∷ ss) =
      units_text-append (pieces_of_sentence max_han i s) (pieces_of_sentences max_han i ss)
      ∙ ap (λ t. t ++ units_text (pieces_of_sentences max_han i ss)) (sentence-text s)
      ∙ ap (λ t. s ++ t) (sentences-text ss)

  pub prefixed-text :
      (before : Text) (c : ℕ) (cs : Text) (ss : List Text)
      → join ss ≡ c ∷ cs
      → units_text (pieces_of_sentences max_han i (with_prefix before ss)) ≡ before ++ c ∷ cs
  prefixed-text before c cs [] h = absurd (ground (arith, h))
  prefixed-text before c cs (s ∷ ss) h =
      sentences-text ((before ++ s) ∷ ss)
      ∙ append_assoc before s (join ss)
      ∙ ap (λ t. before ++ t) h

  pub prefixed-visible :
      (before content : Text) (ss : List Text)
      → has_text before ≡ false
      → visible (join ss) ≡ visible content
      → visible (units_text (pieces_of_sentences max_han i (with_prefix before ss)))
        ≡ visible (before ++ content)
  unfolding visible
  prefixed-visible before content [] blank h =
      h
      ∙ sym (
          visible-append before content
          ∙ ap (λ t. t ++ visible content) (visible-blank before blank))
  prefixed-visible before content (s ∷ ss) blank h =
      ap visible (sentences-text ((before ++ s) ∷ ss) ∙ append_assoc before s (join ss))
      ∙ visible-append before (s ++ join ss)
      ∙ ap (λ t. visible before ++ t) h
      ∙ sym (visible-append before content)

  All-pieces_of :
      (kind : Kind) (ts : List Text)
      → All (IsWithin max_han) ts
      → All (Fits max_han) (pieces_of kind i ts)
  All-pieces_of kind [] h = tt
  All-pieces_of kind (t ∷ ts) (h, hs) = (h, All-pieces_of kind ts hs)

  sentence-Fits : (s : Text) → 0 < max_han → All (Fits max_han) (pieces_of_sentence max_han i s)
  sentence-Fits s positive = elim (Bool-cases (ltb max_han (han_count s))) [
    | inl long ↦ rw long (
        All-pieces_of long_sentence_split (split_long_sentence s max_han)
          (split-IsWithin (length s) max_han s positive (omega arith)))
    | inr short ↦ rw short (ground (arith, short), tt)
  ]

  pub sentences-Fits :
      (ss : List Text) → 0 < max_han → All (Fits max_han) (pieces_of_sentences max_han i ss)
  sentences-Fits [] positive = tt
  sentences-Fits (s ∷ ss) positive =
      All-append_rows (Fits max_han) (pieces_of_sentence max_han i s)
        (pieces_of_sentences max_han i ss) (sentence-Fits s positive) (sentences-Fits ss positive)
