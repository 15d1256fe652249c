-- ===== src/Translation/Normalize.antt =====
-- backend/app/modules/sources/normalize.py. Unicode normalization (unicodedata.normalize, form NFC) and SHA-256 are
-- parameters.
pub mod Tidied
use truyenaudio_studio.Prelude.{
  ℕ, zero, suc, Bool, true, false, ◌&&◌, not, List, [], ◌∷◌, ◌++◌, map, ltb, ◌==◌, if◌then◌else◌,
}
use truyenaudio_studio.Prelude.Lists.{length}
use truyenaudio_studio.Translation.Text.{
  Text, newline, carriage_return, is_newline, is_space, is_empty, han_count,
}

abbrev pub keep : ℕ → Text → Text
keep c rest = if c == carriage_return then rest else c ∷ rest

-- replace("\r\n", "\n"); the flag says that a carriage return was just read and not yet written.
unfoldable pub replace_crlf : Bool → Text → Text
replace_crlf pending [] = if pending then carriage_return ∷ [] else []
replace_crlf pending (c ∷ cs) =
    let rest = replace_crlf (c == carriage_return) cs in
    if pending && not (is_newline c) then carriage_return ∷ keep c rest else keep c rest

-- replace("\r", "\n")
unfoldable pub replace_cr : Text → Text
replace_cr [] = []
replace_cr (c ∷ cs) = (if c == carriage_return then newline else c) ∷ replace_cr cs

abbrev pub add_char : ℕ → List Text → List Text
add_char c [] = (c ∷ []) ∷ []
add_char c (l ∷ ls) = (c ∷ l) ∷ ls

-- split("\n")
unfoldable pub split_lines : Text → List Text
split_lines [] = [] ∷ []
split_lines (c ∷ cs) =
    let rest = split_lines cs in if is_newline c then [] ∷ rest else add_char c rest

unfoldable pub rstrip : Text → Text
rstrip [] = []
rstrip (c ∷ cs) = let rest = rstrip cs in if is_empty rest && is_space c then [] else c ∷ rest

-- The loop of `_limit_blank_lines` with blank_run.
unfoldable pub limit_blank_lines : ℕ → List Text → List Text
limit_blank_lines blank_run [] = []
limit_blank_lines blank_run (l ∷ ls) =
    let rest = limit_blank_lines (if is_empty l then suc blank_run else 0) ls in
    if is_empty l && ltb 2 (suc blank_run) then rest else l ∷ rest

-- "\n".join
unfoldable pub join_lines : List Text → Text
join_lines [] = []
join_lines (l ∷ []) = l
join_lines (l ∷ (m ∷ ls)) = l ++ newline ∷ join_lines (m ∷ ls)

-- strip("\n"), from the left and from the right.
unfoldable pub strip_left : Text → Text
strip_left [] = []
strip_left (c ∷ cs) = let rest = strip_left cs in if is_newline c then rest else c ∷ cs

unfoldable pub strip_right : Text → Text
strip_right [] = []
strip_right (c ∷ cs) =
    let rest = strip_right cs in if is_empty rest && is_newline c then [] else c ∷ rest

abbrev pub strip_newlines : Text → Text
strip_newlines t = strip_right (strip_left t)

abbrev pub rstrip_all : List Text → List Text
rstrip_all [] = []
rstrip_all (l ∷ ls) = rstrip l ∷ rstrip_all ls

pub record NormalizedSource : Type 0 where
  pub text : Text
  pub sha256 : ℕ
  pub han_char_count : ℕ
  pub total_char_count : ℕ

module _ (nfc : Text → Text) (hexdigest : Text → ℕ) where
  abbrev pub normalized_text : Text → Text
  normalized_text raw = strip_newlines (
      join_lines (
        limit_blank_lines 0 (rstrip_all (split_lines (nfc (replace_cr (replace_crlf false raw)))))))

  unfoldable pub normalize_source : Text → NormalizedSource
  normalize_source raw = record {
    text = normalized_text raw;
    sha256 = hexdigest (normalized_text raw);
    han_char_count = han_count (normalized_text raw);
    total_char_count = length (normalized_text raw);
  }
