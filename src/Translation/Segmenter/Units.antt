-- ===== src/Translation/Segmenter/Units.antt =====
-- `_units_for_source`: the units are the text in order, none is too long, and their paragraphs ascend.
use mathlib.Core.List.{append_assoc}
use truyenaudio_studio.Prelude.{
  ℕ, ◌<◌, ◌≡◌, refl, sym, ap, ◌∙◌, true, none, List, [], ◌∷◌, ◌++◌, arith, Bool-cases, inl, inr,
  All, All-append_rows,
}
use truyenaudio_studio.Translation.Text.{Text, is_empty}
use truyenaudio_studio.Translation.Text.Laws.{
  visible, visible-append, han_count-blank, ends_visible,
}
use truyenaudio_studio.Translation.Text.Tidy.{is_tidy}
use truyenaudio_studio.Translation.Segmenter.{
  Paragraph, paragraphs_with_prefixes, sentences, with_prefix, pieces_of_paragraph,
  pieces_of_paragraphs, units_for_source,
}
use truyenaudio_studio.Translation.Segmenter.Sentences.{sentences-join, sentences-visible}
use truyenaudio_studio.Translation.Segmenter.Paragraphs.{
  paragraphs_text, paragraphs-text, IsBlankBefore, paragraphs-IsBlankBefore,
}
use truyenaudio_studio.Translation.Segmenter.Tidy.{
  ContentEndsVisibly, paragraphs-ContentEndsVisibly,
}
use truyenaudio_studio.Translation.Segmenter.Pieces.{
  Fits, units_text, units_text-append, prefixed-text, prefixed-visible, sentences-Fits,
}

module _ (max_han : ℕ) where
  paragraph-text :
      (p : Paragraph) (content : Text)
      → p.content ≡ content
      → ends_visible content ≡ true
      → units_text (pieces_of_paragraph max_han p) ≡ p.before ++ content
  paragraph-text p [] e h = rw e refl
  paragraph-text p (c ∷ cs) e h = rw e (
      prefixed-text max_han p.index p.before c cs (sentences (c ∷ cs))
        (sentences-join [] 0 none (c ∷ cs) h))

  paragraph-visible :
      (p : Paragraph) (content : Text)
      → p.content ≡ content
      → IsBlankBefore p
      → visible (units_text (pieces_of_paragraph max_han p)) ≡ visible (p.before ++ content)
  paragraph-visible p [] e h = rw e refl
  paragraph-visible p (c ∷ cs) e h = rw e (
      prefixed-visible max_han p.index p.before (c ∷ cs) (sentences (c ∷ cs)) h
        (sentences-visible [] 0 none (c ∷ cs)))

  paragraph-Fits :
      (p : Paragraph)
      → 0 < max_han
      → IsBlankBefore p
      → All (Fits max_han) (pieces_of_paragraph max_han p)
  paragraph-Fits p positive h = elim (Bool-cases (is_empty p.content)) [
    | inl blank ↦ rw blank (omega (arith, han_count-blank p.before h), tt)
    | inr full ↦
        rw full
          (sentences-Fits max_han p.index (with_prefix p.before (sentences p.content)) positive)
  ]

  paragraphs-exact :
      (ps : List Paragraph)
      → All ContentEndsVisibly ps
      → units_text (pieces_of_paragraphs max_han ps) ≡ paragraphs_text ps
  paragraphs-exact [] h = refl
  paragraphs-exact (p ∷ ps) (h, hs) =
      units_text-append (pieces_of_paragraph max_han p) (pieces_of_paragraphs max_han ps)
      ∙ ap (λ t. t ++ units_text (pieces_of_paragraphs max_han ps))
          (paragraph-text p p.content refl h)
      ∙ ap (λ t. (p.before ++ p.content) ++ t) (paragraphs-exact ps hs)
      ∙ append_assoc p.before p.content (paragraphs_text ps)

  paragraphs-visible :
      (ps : List Paragraph)
      → All IsBlankBefore ps
      → visible (units_text (pieces_of_paragraphs max_han ps)) ≡ visible (paragraphs_text ps)
  paragraphs-visible [] h = refl
  paragraphs-visible (p ∷ ps) (h, hs) =
      ap visible
        (units_text-append (pieces_of_paragraph max_han p) (pieces_of_paragraphs max_han ps))
      ∙ visible-append (units_text (pieces_of_paragraph max_han p))
          (units_text (pieces_of_paragraphs max_han ps))
      ∙ ap (λ t. t ++ visible (units_text (pieces_of_paragraphs max_han ps)))
          (paragraph-visible p p.content refl h)
      ∙ ap (λ t. visible (p.before ++ p.content) ++ t) (paragraphs-visible ps hs)
      ∙ sym (visible-append (p.before ++ p.content) (paragraphs_text ps))
      ∙ ap visible (append_assoc p.before p.content (paragraphs_text ps))

  paragraphs-Fits :
      (ps : List Paragraph)
      → 0 < max_han
      → All IsBlankBefore ps
      → All (Fits max_han) (pieces_of_paragraphs max_han ps)
  paragraphs-Fits [] positive h = tt
  paragraphs-Fits (p ∷ ps) positive (h, hs) =
      All-append_rows (Fits max_han) (pieces_of_paragraph max_han p)
        (pieces_of_paragraphs max_han ps) (paragraph-Fits p positive h)
        (paragraphs-Fits ps positive hs)

  -- The units of a tidy text join to it.
  pub units-exact :
      (text : Text) → is_tidy text ≡ true → units_text (units_for_source text max_han) ≡ text
  unfolding units_for_source
  units-exact text h =
      paragraphs-exact (paragraphs_with_prefixes text) (paragraphs-ContentEndsVisibly text h)
      ∙ paragraphs-text text

  -- The units of any text have its visible characters.
  pub units-visible :
      (text : Text) → visible (units_text (units_for_source text max_han)) ≡ visible text
  unfolding units_for_source
  units-visible text =
      paragraphs-visible (paragraphs_with_prefixes text) (paragraphs-IsBlankBefore text)
      ∙ ap visible (paragraphs-text text)

  pub units-Fits : (text : Text) → 0 < max_han → All (Fits max_han) (units_for_source text max_han)
  unfolding units_for_source
  units-Fits text positive =
      paragraphs-Fits (paragraphs_with_prefixes text) positive (paragraphs-IsBlankBefore text)
