-- ===== src/Translation/DraftStream/Bounded.antt =====
-- Texts and lists of frames that are cut to a limit.
use mathlib.Core.List.{append_assoc}
use truyenaudio_studio.Prelude.{
  ℕ, zero, suc, ◌+◌, ◌-◌, ◌≤◌, ◌<◌, ◌≡◌, refl, sym, ap, ◌∙◌, false, List, [], ◌∷◌, ◌++◌, ltb, ◌==◌,
  arith, Bool-cases, inl, inr,
}
use truyenaudio_studio.Prelude.Lists.{length}
use truyenaudio_studio.Translation.Text.{Text}
use truyenaudio_studio.Translation.DraftStream.{DeltaFrame, drop, bound_frames, bound_text}

module _ {A : Type 0} where
  pub length-drop : (n : ℕ) (xs : List A) → length (drop n xs) ≡ length xs - n
  unfolding drop
  length-drop zero xs = omega arith
  length-drop (suc n) [] = omega arith
  length-drop (suc n) (x ∷ xs) = length-drop n xs ∙ omega arith

  pub length_append : (xs ys : List A) → length (xs ++ ys) ≡ length xs + length ys
  length_append [] ys = omega arith
  length_append (x ∷ xs) ys = let rest = length_append xs ys in omega (arith, rest)

  pub drop-append :
      (n : ℕ) (xs ys : List A)
      → n ≤ length ys
      → drop (length (xs ++ ys) - n) (xs ++ ys) ≡ drop (length ys - n) ys
  unfolding drop
  drop-append n [] ys h = refl
  drop-append n (x ∷ xs) ys h =
      let total = length_append xs ys in
      let step : suc (length (xs ++ ys)) - n ≡ suc (length (xs ++ ys) - n) =
        omega (arith, total, h) in
      ap (λ k. drop k (x ∷ (xs ++ ys))) step ∙ drop-append n xs ys h

  split-at : (k : ℕ) (xs : List A) → (before : List A) × (before ++ drop k xs ≡ xs)
  unfolding drop
  split-at zero xs = ([], refl)
  split-at (suc k) [] = ([], refl)
  split-at (suc k) (x ∷ xs) =
      let (before, same) = split-at k xs in (x ∷ before, ap (λ l. x ∷ l) same)

abbrev last_chars : ℕ → Text → Text
last_chars n xs = drop (length xs - n) xs

bound_text-last : (n : ℕ) (xs : Text) → 0 < n → bound_text n xs ≡ last_chars n xs
unfolding drop
bound_text-last n xs positive = elim (Bool-cases (ltb n (length xs))) [
  | inl longer ↦
      let some_limit : (n == 0) ≡ false = ground (arith, positive) in rw longer (rw some_limit refl)
  | inr short ↦ let all : length xs - n ≡ 0 = ground (arith, short) in rw short (rw all refl)
]

last-last : (n : ℕ) (xs ys : Text) → last_chars n (last_chars n xs ++ ys) ≡ last_chars n (xs ++ ys)
unfolding drop
last-last n xs ys = elim (Bool-cases (ltb (length xs) n)) [
  | inl short ↦
      let all : length xs - n ≡ 0 = ground (arith, short) in
      ap (λ k. last_chars n (drop k xs ++ ys)) all
  | inr long ↦
      let (before, same) = split-at (length xs - n) xs in
      let kept = last_chars n xs in
      let kept_length = length-drop (length xs - n) xs in
      let whole = length_append kept ys in
      let enough : n ≤ length (kept ++ ys) = ground (arith, long, kept_length, whole) in
      sym (
        ap (λ l. last_chars n (l ++ ys)) (sym same)
        ∙ ap (last_chars n) (append_assoc before kept ys)
        ∙ drop-append n before (kept ++ ys) enough)
]

-- Bounding a text before more is added makes no difference.
pub bound-bound :
    (n : ℕ) (xs ys : Text) → 0 < n → bound_text n (bound_text n xs ++ ys) ≡ bound_text n (xs ++ ys)
bound-bound n xs ys positive =
    bound_text-last n (bound_text n xs ++ ys) positive
    ∙ ap (λ l. last_chars n (l ++ ys)) (bound_text-last n xs positive)
    ∙ last-last n xs ys
    ∙ sym (bound_text-last n (xs ++ ys) positive)

pub bound_frames-length : (n : ℕ) (frames : List DeltaFrame) → length (bound_frames n frames) ≤ n
bound_frames-length n frames = elim (Bool-cases (ltb n (length frames))) [
  | inl over ↦
      let dropped = length-drop (length frames - n) frames in
      rw over (ground (arith, over, dropped))
  | inr within ↦ rw within (ground (arith, within))
]
