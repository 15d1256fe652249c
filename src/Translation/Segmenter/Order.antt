-- ===== src/Translation/Segmenter/Order.antt =====
-- The units come in the order of their paragraphs.
use truyenaudio_studio.Prelude.{
  ℕ, suc, ◌-◌, ◌≤◌, ◌≡◌, refl, List, [], ◌∷◌, ◌++◌, arith, ltb, Bool-cases, inl, inr, All,
  All-append_rows,
}
use truyenaudio_studio.Translation.Text.{Text, is_empty, newlines, han_count}
use truyenaudio_studio.Translation.Segmenter.{
  Kind, long_sentence_split, Piece, Part, run, body, Paragraph, paragraphs_from,
  paragraphs_with_prefixes, split_parts, sentences, split_long_sentence, pieces_of,
  pieces_of_sentences, with_prefix, pieces_of_paragraph, pieces_of_paragraphs, units_for_source,
}

-- The paragraphs ascend from `k`.
abbrev pub Ascends : ℕ → List Piece → Type 0
Ascends k [] = Unit
Ascends k (u ∷ us) = (k ≤ u.paragraph_index) × Ascends u.paragraph_index us

-- Units of one paragraph, put before units that ascend from it.
abbrev IsOf : ℕ → Piece → Type 0
IsOf i u = u.paragraph_index ≡ i

Ascends-lower : (j k : ℕ) (us : List Piece) → j ≤ k → Ascends k us → Ascends j us
Ascends-lower j k [] le h = tt
Ascends-lower j k (u ∷ us) le (h, hs) = (omega arith, hs)

Ascends-append :
    (k i : ℕ) (us vs : List Piece) → k ≤ i → All (IsOf i) us → Ascends i vs → Ascends k (us ++ vs)
Ascends-append k i [] vs le h hv = Ascends-lower k i vs le hv
Ascends-append k i (u ∷ us) vs le (h, hs) hv =
    (omega arith, Ascends-append u.paragraph_index i us vs (omega arith) hs hv)

All-pieces_of : (kind : Kind) (i : ℕ) (ts : List Text) → All (IsOf i) (pieces_of kind i ts)
All-pieces_of kind i [] = tt
All-pieces_of kind i (t ∷ ts) = (refl, All-pieces_of kind i ts)

All-append_own :
    (i : ℕ) (us vs : List Piece) → All (IsOf i) us → All (IsOf i) vs → All (IsOf i) (us ++ vs)
All-append_own i = All-append_rows (IsOf i)

sentences-IsOf : (max_han i : ℕ) (ss : List Text) → All (IsOf i) (pieces_of_sentences max_han i ss)
sentences-IsOf max_han i [] = tt
sentences-IsOf max_han i (s ∷ ss) = elim (Bool-cases (ltb max_han (han_count s))) [
  | inl long ↦ rw long (
      All-append_own i (pieces_of long_sentence_split i (split_long_sentence s max_han))
        (pieces_of_sentences max_han i ss)
        (All-pieces_of long_sentence_split i (split_long_sentence s max_han))
        (sentences-IsOf max_han i ss))
  | inr short ↦ rw short (refl, sentences-IsOf max_han i ss)
]

paragraph-IsOf : (max_han : ℕ) (p : Paragraph) → All (IsOf p.index) (pieces_of_paragraph max_han p)
paragraph-IsOf max_han p = elim (Bool-cases (is_empty p.content)) [
  | inl blank ↦ rw blank (refl, tt)
  | inr full ↦ rw full (sentences-IsOf max_han p.index (with_prefix p.before (sentences p.content)))
]

abbrev ParagraphsAscend : ℕ → List Paragraph → Type 0
ParagraphsAscend k [] = Unit
ParagraphsAscend k (p ∷ ps) = (k ≤ p.index) × ParagraphsAscend p.index ps

-- Before the paragraph with index `i`, the paragraphs so far have indices up to `k`.
paragraphs_from-ascend :
    (k : ℕ) (pending : Text) (i : ℕ) (ps : List Part)
    → k ≤ i - 1
    → ParagraphsAscend k (paragraphs_from pending i ps)
unfolding paragraphs_from
paragraphs_from-ascend k [] i [] le = tt
paragraphs_from-ascend k (c ∷ cs) i [] le = (le, tt)
paragraphs_from-ascend k pending i (run n ∷ ps) le =
    paragraphs_from-ascend k (pending ++ newlines n) i ps le
paragraphs_from-ascend k pending i (body b ∷ ps) le =
    (omega arith, paragraphs_from-ascend i [] (suc i) ps (omega arith))

pieces-Ascends :
    (max_han k : ℕ) (ps : List Paragraph)
    → ParagraphsAscend k ps
    → Ascends k (pieces_of_paragraphs max_han ps)
pieces-Ascends max_han k [] h = tt
pieces-Ascends max_han k (p ∷ ps) (h, hs) =
    Ascends-append k p.index (pieces_of_paragraph max_han p) (pieces_of_paragraphs max_han ps) h
      (paragraph-IsOf max_han p) (pieces-Ascends max_han p.index ps hs)

pub units-Ascends : (text : Text) (max_han : ℕ) → Ascends 0 (units_for_source text max_han)
unfolding units_for_source paragraphs_with_prefixes
units-Ascends text max_han =
    pieces-Ascends max_han 0 (paragraphs_with_prefixes text)
      (paragraphs_from-ascend 0 [] 0 (split_parts text) (omega arith))
