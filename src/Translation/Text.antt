-- ===== src/Translation/Text.antt =====
-- Texts as lists of code points, and what the code uses of Python's `str`.
pub mod Laws
pub mod Tidy
use truyenaudio_studio.Prelude.{
  ℕ, zero, suc, ◌+◌, Bool, true, false, ◌||◌, ◌&&◌, not, List, [], ◌∷◌, ◌++◌, leb, ◌==◌,
  if◌then◌else◌, count_where,
}

abbrev pub Text : Type 0
Text = List ℕ

abbrev pub newline : ℕ
newline = 10

abbrev pub carriage_return : ℕ
carriage_return = 13

-- str.isspace of one character.
unfoldable pub is_space : ℕ → Bool
is_space c =
    (leb 9 c && leb c 13)
    || (leb 28 c && leb c 32)
    || c == 133
    || c == 160
    || c == 5760
    || (leb 8192 c && leb c 8202)
    || c == 8232
    || c == 8233
    || c == 8239
    || c == 8287
    || c == 12288

abbrev pub is_newline : ℕ → Bool
is_newline c = c == newline

-- The truth value of a text, and of `text.strip()`.
abbrev pub is_empty : Text → Bool
is_empty [] = true
is_empty (c ∷ cs) = false

unfoldable pub has_text : Text → Bool
has_text [] = false
has_text (c ∷ cs) = not (is_space c) || has_text cs

-- "".join
abbrev pub join : List Text → Text
join [] = []
join (t ∷ ts) = t ++ join ts

-- "\n" * n
abbrev pub newlines : ℕ → Text
newlines zero = []
newlines (suc n) = newline ∷ newlines n

-- "\u4e00" <= char <= "\u9fff"
unfoldable pub is_han : ℕ → Bool
is_han c = leb 19968 c && leb c 40959

abbrev pub han_count : Text → ℕ
han_count text = count_where is_han text
