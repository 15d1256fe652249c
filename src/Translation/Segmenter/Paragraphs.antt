-- ===== src/Translation/Segmenter/Paragraphs.antt =====
-- `_paragraphs_with_prefixes`: the paragraphs with the newlines before them are the text, in order.
use mathlib.Core.List.{append_assoc}
use truyenaudio_studio.Prelude.{
  ℕ, zero, suc, ◌≡◌, refl, sym, ap, ◌∙◌, true, false, List, [], ◌∷◌, ◌++◌, arith, leb, ==_iff,
  Bool-cases, inl, inr, All,
}
use truyenaudio_studio.Translation.Text.{Text, newline, newlines, is_newline, has_text}
use truyenaudio_studio.Translation.Text.Laws.{has_text-append, has_text-newlines}
use truyenaudio_studio.Translation.Segmenter.{
  Part, run, body, add_body, parts_from, split_parts, Paragraph, paragraphs_from,
  paragraphs_with_prefixes,
}

abbrev pub part_text : Part → Text
part_text (run n) = newlines n
part_text (body b) = b

abbrev pub parts_text : List Part → Text
parts_text [] = []
parts_text (p ∷ ps) = part_text p ++ parts_text ps

add_body-text : (b : Text) (ps : List Part) → parts_text (add_body b ps) ≡ b ++ parts_text ps
add_body-text [] ps = refl
add_body-text (c ∷ cs) ps = refl

pub newlines-snoc : (n : ℕ) (cs : Text) → newlines (suc n) ++ cs ≡ newlines n ++ newline ∷ cs
newlines-snoc zero cs = refl
newlines-snoc (suc n) cs = ap (λ t. newline ∷ t) (newlines-snoc n cs)

-- The three ways a round of the scan goes on.
module _ (current : Text) (n : ℕ) (c : ℕ) (cs : Text) where
  pub parts-newline :
      is_newline c ≡ true → parts_from current n (c ∷ cs) ≡ parts_from current (suc n) cs
  unfolding parts_from
  parts-newline h = rw h refl

  pub parts-run :
      is_newline c ≡ false
      → leb 2 n ≡ true
      → parts_from current n (c ∷ cs) ≡ add_body current (run n ∷ parts_from (c ∷ []) 0 cs)
  unfolding parts_from
  parts-run h k = rw (h, k) refl

  pub parts-on :
      is_newline c ≡ false
      → leb 2 n ≡ false
      → parts_from current n (c ∷ cs) ≡ parts_from (current ++ (newlines n ++ c ∷ [])) 0 cs
  unfolding parts_from
  parts-on h k = rw (h, k) refl

  parts-step :
      parts_text (parts_from current (suc n) cs) ≡ current ++ (newlines (suc n) ++ cs)
      → parts_text (parts_from (c ∷ []) 0 cs) ≡ c ∷ cs
      → parts_text (parts_from (current ++ (newlines n ++ c ∷ [])) 0 cs)
        ≡ (current ++ (newlines n ++ c ∷ [])) ++ cs
      → parts_text (parts_from current n (c ∷ cs)) ≡ current ++ (newlines n ++ c ∷ cs)
  parts-step at_newline at_run at_on = elim (Bool-cases (is_newline c)) [
    | inl h ↦
        ap parts_text (parts-newline h)
        ∙ at_newline
        ∙ ap (λ t. current ++ t) (newlines-snoc n cs)
        ∙ ap (λ d. current ++ (newlines n ++ d ∷ cs)) (sym ((==_iff c newline).0 h))
    | inr h ↦ elim (Bool-cases (leb 2 n)) [
      | inl k ↦
          ap parts_text (parts-run h k)
          ∙ add_body-text current (run n ∷ parts_from (c ∷ []) 0 cs)
          ∙ ap (λ t. current ++ (newlines n ++ t)) at_run
      | inr k ↦
          ap parts_text (parts-on h k)
          ∙ at_on
          ∙ append_assoc current (newlines n ++ c ∷ []) cs
          ∙ ap (λ t. current ++ t) (append_assoc (newlines n) (c ∷ []) cs)
    ]
  ]

-- The parts are the text.
parts-text :
    (current : Text) (n : ℕ) (cs : Text)
    → parts_text (parts_from current n cs) ≡ current ++ (newlines n ++ cs)
unfolding parts_from
parts-text current n [] = elim (Bool-cases (leb 2 n)) [
  | inl k ↦ rw k (add_body-text current (run n ∷ []))
  | inr k ↦ rw k (add_body-text (current ++ newlines n) [] ∙ append_assoc current (newlines n) [])
]
parts-text current n (c ∷ cs) =
    parts-step current n c cs (parts-text current (suc n) cs) (parts-text (c ∷ []) 0 cs)
      (parts-text (current ++ (newlines n ++ c ∷ [])) 0 cs)

abbrev pub paragraphs_text : List Paragraph → Text
paragraphs_text [] = []
paragraphs_text (p ∷ ps) = p.before ++ (p.content ++ paragraphs_text ps)

paragraphs_from-text :
    (pending : Text) (i : ℕ) (ps : List Part)
    → paragraphs_text (paragraphs_from pending i ps) ≡ pending ++ parts_text ps
unfolding paragraphs_from
paragraphs_from-text [] i [] = refl
paragraphs_from-text (c ∷ cs) i [] = refl
paragraphs_from-text pending i (run n ∷ ps) =
    paragraphs_from-text (pending ++ newlines n) i ps
    ∙ append_assoc pending (newlines n) (parts_text ps)
paragraphs_from-text pending i (body b ∷ ps) =
    ap (λ t. pending ++ (b ++ t)) (paragraphs_from-text [] (suc i) ps)

-- The paragraphs with their prefixes are the text.
pub paragraphs-text : (text : Text) → paragraphs_text (paragraphs_with_prefixes text) ≡ text
unfolding paragraphs_with_prefixes
paragraphs-text text = paragraphs_from-text [] 0 (split_parts text) ∙ parts-text [] 0 text

-- What stands before a paragraph is newlines only.
abbrev pub IsBlankBefore : Paragraph → Type 0
IsBlankBefore p = has_text p.before ≡ false

paragraphs_from-IsBlankBefore :
    (pending : Text) (i : ℕ) (ps : List Part)
    → has_text pending ≡ false
    → All IsBlankBefore (paragraphs_from pending i ps)
unfolding paragraphs_from has_text
paragraphs_from-IsBlankBefore [] i [] h = tt
paragraphs_from-IsBlankBefore (c ∷ cs) i [] h = (h, tt)
paragraphs_from-IsBlankBefore pending i (run n ∷ ps) h =
    paragraphs_from-IsBlankBefore (pending ++ newlines n) i ps
      (ground (arith, has_text-append pending (newlines n), has_text-newlines n, h))
paragraphs_from-IsBlankBefore pending i (body b ∷ ps) h =
    (h, paragraphs_from-IsBlankBefore [] (suc i) ps refl)

pub paragraphs-IsBlankBefore : (text : Text) → All IsBlankBefore (paragraphs_with_prefixes text)
unfolding paragraphs_with_prefixes has_text
paragraphs-IsBlankBefore text = paragraphs_from-IsBlankBefore [] 0 (split_parts text) refl
