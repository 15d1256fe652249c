-- ===== src/Translation/Text/Tidy.antt =====
-- Texts whose lines end in a visible character, as `normalize_source` leaves them.
use truyenaudio_studio.Prelude.{
  ℕ, ◌≡◌, refl, Bool, true, false, ◌||◌, ◌&&◌, not, [], ◌∷◌, ◌++◌, arith,
}
use truyenaudio_studio.Translation.Text.{Text, newline, is_newline, is_space}
use truyenaudio_studio.Translation.Text.Laws.{ends_visible}

-- No line of the text ends in white space, and no newline ends the text. Empty lines are allowed.
unfoldable pub is_tidy : Text → Bool
is_tidy [] = true
is_tidy (c ∷ []) = not (is_space c)
is_tidy (c ∷ (d ∷ cs)) =
    (not (is_newline d) || (is_newline c || not (is_space c))) && is_tidy (d ∷ cs)

-- The last character, if there is one, is no newline.
unfoldable pub ends_in_line : Text → Bool
ends_in_line [] = true
ends_in_line (c ∷ []) = not (is_newline c)
ends_in_line (c ∷ (d ∷ cs)) = ends_in_line (d ∷ cs)

pub ends_in_line-snoc :
    (xs : Text) (c : ℕ) → is_newline c ≡ false → ends_in_line (xs ++ c ∷ []) ≡ true
unfolding ends_in_line
ends_in_line-snoc [] c h = ground (arith, h)
ends_in_line-snoc (x ∷ []) c h = ground (arith, h)
ends_in_line-snoc (x ∷ (y ∷ xs)) c h = ends_in_line-snoc (y ∷ xs) c h

pub is_tidy-suffix : (xs ys : Text) → is_tidy (xs ++ ys) ≡ true → is_tidy ys ≡ true
unfolding is_tidy
is_tidy-suffix [] ys h = h
is_tidy-suffix (x ∷ []) [] h = refl
is_tidy-suffix (x ∷ []) (y ∷ ys) h = ground (arith, h)
is_tidy-suffix (x ∷ (z ∷ xs)) ys h = is_tidy-suffix (z ∷ xs) ys (ground (arith, h))

pub is_tidy-ends_visible : (xs : Text) → is_tidy xs ≡ true → ends_visible xs ≡ true
unfolding is_tidy ends_visible
is_tidy-ends_visible [] h = refl
is_tidy-ends_visible (x ∷ []) h = h
is_tidy-ends_visible (x ∷ (y ∷ xs)) h = is_tidy-ends_visible (y ∷ xs) (ground (arith, h))

-- A line before a newline ends visibly.
pub line-ends_visible :
    (xs ys : Text)
    → is_tidy (xs ++ newline ∷ ys) ≡ true
    → ends_in_line xs ≡ true
    → ends_visible xs ≡ true
unfolding is_tidy ends_visible ends_in_line
line-ends_visible [] ys h k = refl
line-ends_visible (x ∷ []) ys h k = ground (arith, h, k)
line-ends_visible (x ∷ (y ∷ xs)) ys h k = line-ends_visible (y ∷ xs) ys (ground (arith, h)) k
