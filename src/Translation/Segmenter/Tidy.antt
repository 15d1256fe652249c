-- ===== src/Translation/Segmenter/Tidy.antt =====
-- The paragraphs of a tidy text end in a visible character.
use mathlib.Core.List.{append_assoc, append-nil}
use truyenaudio_studio.Prelude.{
  ℕ, zero, suc, ◌≡◌, refl, sym, ap, ◌∙◌, subst, true, List, [], ◌∷◌, ◌++◌, arith, leb, ==_iff,
  Bool-cases, inl, inr, All,
}
use truyenaudio_studio.Translation.Text.{Text, newline, newlines, is_newline}
use truyenaudio_studio.Translation.Text.Laws.{ends_visible}
use truyenaudio_studio.Translation.Text.Tidy.{
  is_tidy, ends_in_line, ends_in_line-snoc, is_tidy-suffix, is_tidy-ends_visible, line-ends_visible,
}
use truyenaudio_studio.Translation.Segmenter.{
  Part, run, body, add_body, parts_from, split_parts, Paragraph, paragraphs_from,
  paragraphs_with_prefixes,
}
use truyenaudio_studio.Translation.Segmenter.Paragraphs.{
  parts-newline, parts-run, parts-on, newlines-snoc,
}

abbrev pub EndsVisibly : Part → Type 0
EndsVisibly (run n) = Unit
EndsVisibly (body b) = ends_visible b ≡ true

All-add_body :
    (b : Text) (ps : List Part)
    → ends_visible b ≡ true
    → All EndsVisibly ps
    → All EndsVisibly (add_body b ps)
All-add_body [] ps h hs = hs
All-add_body (c ∷ cs) ps h hs = (h, hs)

-- The text before a run of newlines.
before_run :
    (current : Text) (n : ℕ) (cs : Text)
    → is_tidy (current ++ (newlines n ++ cs)) ≡ true
    → ends_in_line current ≡ true
    → leb 2 n ≡ true
    → ends_visible current ≡ true
before_run current zero cs h k two = absurd (ground (arith, two))
before_run current (suc n) cs h k two = line-ends_visible current (newlines n ++ cs) h k

parts-EndsVisibly :
    (current : Text) (n : ℕ) (cs : Text)
    → is_tidy (current ++ (newlines n ++ cs)) ≡ true
    → ends_in_line current ≡ true
    → All EndsVisibly (parts_from current n cs)
unfolding parts_from
parts-EndsVisibly current n [] h k = elim (Bool-cases (leb 2 n)) [
  | inl two ↦ rw two (All-add_body current (run n ∷ []) (before_run current n [] h k two) (tt, tt))
  | inr few ↦ rw few (
      All-add_body (current ++ newlines n) []
        (is_tidy-ends_visible (current ++ newlines n)
          (ap (λ t. is_tidy (current ++ t)) (sym (append-nil (newlines n))) ∙ h))
        tt)
]
parts-EndsVisibly current n (c ∷ cs) h k = elim (Bool-cases (is_newline c)) [
  | inl nl ↦ subst (All EndsVisibly) (sym (parts-newline current n c cs nl)) (
      parts-EndsVisibly current (suc n) cs
        (ap (λ t. is_tidy (current ++ t))
            (newlines-snoc n cs ∙ ap (λ d. newlines n ++ d ∷ cs) (sym ((==_iff c newline).0 nl)))
          ∙ h)
        k)
  | inr other ↦ elim (Bool-cases (leb 2 n)) [
    | inl two ↦ subst (All EndsVisibly) (sym (parts-run current n c cs other two)) (
        All-add_body current (run n ∷ parts_from (c ∷ []) 0 cs)
          (before_run current n (c ∷ cs) h k two)
          (
            tt,
            parts-EndsVisibly (c ∷ []) 0 cs
                (is_tidy-suffix (newlines n) (c ∷ cs)
                  (is_tidy-suffix current (newlines n ++ c ∷ cs) h))
                (ends_in_line-snoc [] c other),
          ))
    | inr few ↦ subst (All EndsVisibly) (sym (parts-on current n c cs other few)) (
        parts-EndsVisibly (current ++ (newlines n ++ c ∷ [])) 0 cs
          (ap is_tidy (
              append_assoc current (newlines n ++ c ∷ []) cs
              ∙ ap (λ t. current ++ t) (append_assoc (newlines n) (c ∷ []) cs))
            ∙ h)
          (subst (λ t. ends_in_line t ≡ true) (append_assoc current (newlines n) (c ∷ []))
            (ends_in_line-snoc (current ++ newlines n) c other)))
  ]
]

abbrev pub ContentEndsVisibly : Paragraph → Type 0
ContentEndsVisibly p = ends_visible p.content ≡ true

paragraphs_from-ContentEndsVisibly :
    (pending : Text) (i : ℕ) (ps : List Part)
    → All EndsVisibly ps
    → All ContentEndsVisibly (paragraphs_from pending i ps)
unfolding paragraphs_from ends_visible
paragraphs_from-ContentEndsVisibly [] i [] h = tt
paragraphs_from-ContentEndsVisibly (c ∷ cs) i [] h = (refl, tt)
paragraphs_from-ContentEndsVisibly pending i (run n ∷ ps) (_, hs) =
    paragraphs_from-ContentEndsVisibly (pending ++ newlines n) i ps hs
paragraphs_from-ContentEndsVisibly pending i (body b ∷ ps) (h, hs) =
    (h, paragraphs_from-ContentEndsVisibly [] (suc i) ps hs)

pub paragraphs-ContentEndsVisibly :
    (text : Text) → is_tidy text ≡ true → All ContentEndsVisibly (paragraphs_with_prefixes text)
unfolding paragraphs_with_prefixes ends_in_line
paragraphs-ContentEndsVisibly text h =
    paragraphs_from-ContentEndsVisibly [] 0 (split_parts text) (parts-EndsVisibly [] 0 text h refl)
