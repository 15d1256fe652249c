-- ===== src/Translation/Segmenter/Sentences.antt =====
-- `_sentences` keeps every visible character, and the whole paragraph where it ends in one.
use mathlib.Core.List.{append_assoc, append-nil}
use truyenaudio_studio.Prelude.{
  ℕ, ◌≡◌, refl, sym, ap, ◌∙◌, Bool, true, false, Option, some, List, [], ◌∷◌, ◌++◌, arith,
  if◌then◌else◌, Bool-cases, inl, inr,
}
use truyenaudio_studio.Translation.Text.{Text, is_space, has_text, join}
use truyenaudio_studio.Translation.Text.Laws.{
  visible, visible-append, visible-blank, has_text-append, ends_visible, ends_visible-suffix,
  ends_visible-has_text,
}
use truyenaudio_studio.Translation.Segmenter.{
  is_sentence_ending, is_close_quote, sentences_from, splits_after, depth_after,
}

ending-visible : (c : ℕ) → is_sentence_ending c ≡ true → is_space c ≡ false
unfolding is_sentence_ending is_space
ending-visible c h = ground arith

quote-visible : (c : ℕ) → is_close_quote c ≡ true → is_space c ≡ false
unfolding is_close_quote is_space
quote-visible c h = ground arith

-- What is cut off has text: it ends in a mark.
cut-has_text :
    (current : Text) (depth : ℕ) (last : Option ℕ) (c : ℕ)
    → splits_after depth last c ≡ true
    → has_text (current ++ c ∷ []) ≡ true
unfolding has_text
cut-has_text current depth last c h =
    ground (arith, h, has_text-append current (c ∷ []), ending-visible c, quote-visible c)

abbrev next_last : Option ℕ → ℕ → Option ℕ
next_last last c = if is_space c then last else some c

-- The two ways a round of the loop goes on.
sentences-cut :
    (current : Text) (depth : ℕ) (last : Option ℕ) (c : ℕ) (cs : Text)
    → splits_after (depth_after depth c) last c ≡ true
    → sentences_from current depth last (c ∷ cs)
      ≡ (current ++ c ∷ []) ∷ sentences_from [] (depth_after depth c) (next_last last c) cs
unfolding sentences_from
sentences-cut current depth last c cs h =
    rw (h, cut-has_text current (depth_after depth c) last c h) refl

sentences-on :
    (current : Text) (depth : ℕ) (last : Option ℕ) (c : ℕ) (cs : Text)
    → splits_after (depth_after depth c) last c ≡ false
    → sentences_from current depth last (c ∷ cs)
      ≡ sentences_from (current ++ c ∷ []) (depth_after depth c) (next_last last c) cs
unfolding sentences_from
sentences-on current depth last c cs h = rw h refl

module _ (current : Text) (depth : ℕ) (last : Option ℕ) (c : ℕ) (cs : Text) where
  abbrev cut : Bool
  cut = splits_after (depth_after depth c) last c

  split : (current ++ c ∷ []) ++ cs ≡ current ++ c ∷ cs
  split = append_assoc current (c ∷ []) cs

  abbrev after_cut : List Text
  after_cut = sentences_from [] (depth_after depth c) (next_last last c) cs

  abbrev after_on : List Text
  after_on = sentences_from (current ++ c ∷ []) (depth_after depth c) (next_last last c) cs

  join-step :
      join after_cut ≡ cs
      → join after_on ≡ (current ++ c ∷ []) ++ cs
      → join (sentences_from current depth last (c ∷ cs)) ≡ current ++ c ∷ cs
  join-step at_cut at_on = elim (Bool-cases cut) [
    | inl h ↦
        ap join (sentences-cut current depth last c cs h)
        ∙ ap (λ t. (current ++ c ∷ []) ++ t) at_cut
        ∙ split
    | inr h ↦ ap join (sentences-on current depth last c cs h) ∙ at_on ∙ split
  ]

  visible-step :
      visible (join after_cut) ≡ visible cs
      → visible (join after_on) ≡ visible ((current ++ c ∷ []) ++ cs)
      → visible (join (sentences_from current depth last (c ∷ cs))) ≡ visible (current ++ c ∷ cs)
  visible-step at_cut at_on = elim (Bool-cases cut) [
    | inl h ↦
        ap (λ ts. visible (join ts)) (sentences-cut current depth last c cs h)
        ∙ visible-append (current ++ c ∷ []) (join after_cut)
        ∙ ap (λ t. visible (current ++ c ∷ []) ++ t) at_cut
        ∙ sym (visible-append (current ++ c ∷ []) cs)
        ∙ ap visible split
    | inr h ↦
        ap (λ ts. visible (join ts)) (sentences-on current depth last c cs h)
        ∙ at_on
        ∙ ap visible split
  ]

-- A paragraph that ends in a visible character is the sentences, joined.
pub sentences-join :
    (current : Text) (depth : ℕ) (last : Option ℕ) (cs : Text)
    → ends_visible (current ++ cs) ≡ true
    → join (sentences_from current depth last cs) ≡ current ++ cs
unfolding sentences_from has_text
sentences-join [] depth last [] h = refl
sentences-join (x ∷ xs) depth last [] h = ground (
  arith,
  ends_visible-has_text (x ∷ xs),
  ap ends_visible (append-nil (x ∷ xs)),
  h,
  append-nil (x ∷ xs),
)
sentences-join current depth last (c ∷ cs) h =
    let whole = ap ends_visible (split current depth last c cs) ∙ h in
    join-step current depth last c cs
      (sentences-join [] (depth_after depth c) (next_last last c) cs
        (ends_visible-suffix (current ++ c ∷ []) cs whole))
      (sentences-join (current ++ c ∷ []) (depth_after depth c) (next_last last c) cs whole)

-- Any paragraph has the visible characters of its sentences.
pub sentences-visible :
    (current : Text) (depth : ℕ) (last : Option ℕ) (cs : Text)
    → visible (join (sentences_from current depth last cs)) ≡ visible (current ++ cs)
unfolding sentences_from visible
sentences-visible current depth last [] = elim (Bool-cases (has_text current)) [
  | inl full ↦ rw full refl
  | inr blank ↦ rw blank (sym (ap visible (append-nil current) ∙ visible-blank current blank))
]
sentences-visible current depth last (c ∷ cs) =
    visible-step current depth last c cs
      (sentences-visible [] (depth_after depth c) (next_last last c) cs)
      (sentences-visible (current ++ c ∷ []) (depth_after depth c) (next_last last c) cs)
