-- ===== src/Translation/Text/Laws.antt =====
-- Joins, visible characters and counts of texts.
use mathlib.Core.List.{append_assoc}
use truyenaudio_studio.Prelude.{
  ℕ, zero, suc, ◌+◌, ◌≡◌, refl, sym, Bool, true, false, ◌||◌, not, List, [], ◌∷◌, ◌++◌, arith,
  if◌then◌else◌, count_where, count-append,
}
use truyenaudio_studio.Translation.Text.{
  Text, is_space, is_empty, has_text, join, newlines, is_han, han_count,
}

pub join-append : (xs ys : List Text) → join (xs ++ ys) ≡ join xs ++ join ys
join-append [] ys = refl
join-append (x ∷ xs) ys = rw (join-append xs ys) (sym (append_assoc x (join xs) (join ys)))

-- The characters that are not white space.
unfoldable pub visible : Text → Text
visible [] = []
visible (c ∷ cs) = let rest = visible cs in if is_space c then rest else c ∷ rest

pub visible-append : (xs ys : Text) → visible (xs ++ ys) ≡ visible xs ++ visible ys
unfolding visible
visible-append [] ys = refl
visible-append (x ∷ xs) ys = ground (arith, visible-append xs ys)

pub visible-blank : (t : Text) → has_text t ≡ false → visible t ≡ []
unfolding visible has_text
visible-blank [] h = refl
visible-blank (c ∷ cs) h = ground (arith, h, visible-blank cs)

pub has_text-append : (xs ys : Text) → has_text (xs ++ ys) ≡ (has_text xs || has_text ys)
unfolding has_text
has_text-append [] ys = refl
has_text-append (x ∷ xs) ys = ground (arith, has_text-append xs ys)

pub has_text-newlines : (n : ℕ) → has_text (newlines n) ≡ false
unfolding has_text is_space
has_text-newlines zero = refl
has_text-newlines (suc n) = has_text-newlines n

-- A Han character is no white space.
han-visible : (c : ℕ) → is_space c ≡ true → is_han c ≡ false
unfolding is_space is_han
han-visible c h = ground arith

pub han_count-blank : (t : Text) → has_text t ≡ false → han_count t ≡ 0
unfolding has_text count_where
han_count-blank [] h = refl
han_count-blank (c ∷ cs) h = ground (arith, h, han-visible c, han_count-blank cs)

pub han_count-append : (xs ys : Text) → han_count (xs ++ ys) ≡ han_count xs + han_count ys
han_count-append xs ys = count-append is_han xs ys

-- The last character, if there is one, is visible.
unfoldable pub ends_visible : Text → Bool
ends_visible [] = true
ends_visible (c ∷ []) = not (is_space c)
ends_visible (c ∷ (d ∷ cs)) = ends_visible (d ∷ cs)

pub ends_visible-suffix : (xs ys : Text) → ends_visible (xs ++ ys) ≡ true → ends_visible ys ≡ true
unfolding ends_visible
ends_visible-suffix [] ys h = h
ends_visible-suffix (x ∷ []) [] h = refl
ends_visible-suffix (x ∷ []) (y ∷ ys) h = h
ends_visible-suffix (x ∷ (z ∷ xs)) ys h = ends_visible-suffix (z ∷ xs) ys h

-- Text that ends visibly is empty or has text.
pub ends_visible-has_text :
    (t : Text) → ends_visible t ≡ true → is_empty t ≡ false → has_text t ≡ true
unfolding ends_visible has_text
ends_visible-has_text [] h e = ground (arith, e)
ends_visible-has_text (c ∷ []) h e = ground (arith, h)
ends_visible-has_text (c ∷ (d ∷ cs)) h e = ground (arith, ends_visible-has_text (d ∷ cs) h refl)
