-- ===== src/Translation/Normalize/Tidied.antt =====
-- The text of `normalize_source` is tidy, so its segments join to it.
use truyenaudio_studio.Prelude.{
  ℕ, suc, ◌≡◌, refl, sym, ap, ◌∙◌, ◌<◌, ◌≤◌, Bool, true, false, ◌||◌, ◌&&◌, not, List, [], ◌∷◌,
  ◌++◌, arith, ltb, if◌then◌else◌, All, Bool-cases, inl, inr,
}
use truyenaudio_studio.Translation.Text.{Text, newline, is_newline, is_space, is_empty}
use truyenaudio_studio.Translation.Text.Tidy.{is_tidy}
use truyenaudio_studio.Translation.Segmenter.{units_for_source}
use truyenaudio_studio.Translation.Pack.{ok, nothing, pack_from, segment_source}
use truyenaudio_studio.Translation.Pack.Segments.{joined, segment_source-ok, segments-join}
use truyenaudio_studio.Translation.Normalize.{
  replace_crlf, replace_cr, add_char, split_lines, rstrip, rstrip_all, limit_blank_lines,
  join_lines, strip_left, strip_right, normalize_source,
}

-- A tidy text, or one with newlines behind it.
is_trimmed : Text → Bool
is_trimmed [] = true
is_trimmed (c ∷ []) = is_newline c || not (is_space c)
is_trimmed (c ∷ (d ∷ cs)) =
    (not (is_newline d) || (is_newline c || not (is_space c))) && is_trimmed (d ∷ cs)

no_newline : Text → Bool
no_newline [] = true
no_newline (c ∷ cs) = not (is_newline c) && no_newline cs

abbrev HasNoNewline : Text → Type 0
HasNoNewline l = no_newline l ≡ true

abbrev IsTidy : Text → Type 0
IsTidy l = is_tidy l ≡ true

add_char-HasNoNewline :
    (c : ℕ) (ls : List Text)
    → is_newline c ≡ false
    → All HasNoNewline ls
    → All HasNoNewline (add_char c ls)
unfolding no_newline
add_char-HasNoNewline c [] h hs = (ground (arith, h), tt)
add_char-HasNoNewline c (l ∷ ls) h (hl, hs) = (ground (arith, h, hl), hs)

split_lines-HasNoNewline : (t : Text) → All HasNoNewline (split_lines t)
unfolding split_lines no_newline
split_lines-HasNoNewline [] = (refl, tt)
split_lines-HasNoNewline (c ∷ cs) = elim (Bool-cases (is_newline c)) [
  | inl h ↦ rw h (refl, split_lines-HasNoNewline cs)
  | inr h ↦ rw h (add_char-HasNoNewline c (split_lines cs) h (split_lines-HasNoNewline cs))
]

rstrip-step :
    (c : ℕ) (rest : Text)
    → is_newline c ≡ false
    → no_newline rest ≡ true
    → is_tidy rest ≡ true
    → (no_newline (if is_empty rest && is_space c then [] else c ∷ rest) ≡ true)
      × (is_tidy (if is_empty rest && is_space c then [] else c ∷ rest) ≡ true)
unfolding no_newline is_tidy
rstrip-step c [] h line tidy = elim (Bool-cases (is_space c)) [
  | inl space ↦ rw space (refl, refl)
  | inr other ↦ rw other (ground (arith, h), ground (arith, other))
]
rstrip-step c (d ∷ ds) h line tidy = (ground (arith, h, line), ground (arith, h, line, tidy))

-- Stripping a line leaves it tidy.
rstrip-tidy :
    (l : Text) → no_newline l ≡ true → (no_newline (rstrip l) ≡ true) × (is_tidy (rstrip l) ≡ true)
unfolding no_newline rstrip is_tidy
rstrip-tidy [] h = (refl, refl)
rstrip-tidy (c ∷ cs) h =
    let (line, tidy) = rstrip-tidy cs (ground (arith, h)) in
    rstrip-step c (rstrip cs) (ground (arith, h)) line tidy

rstrip_all-IsTidy : (ls : List Text) → All HasNoNewline ls → All IsTidy (rstrip_all ls)
rstrip_all-IsTidy [] h = tt
rstrip_all-IsTidy (l ∷ ls) (h, hs) =
    let (_, tidy) = rstrip-tidy l h in (tidy, rstrip_all-IsTidy ls hs)

limit-All :
    (P : Text → Type 0) (run : ℕ) (ls : List Text) → All P ls → All P (limit_blank_lines run ls)
unfolding limit_blank_lines
limit-All P run [] h = tt
limit-All P run (l ∷ ls) (h, hs) =
    let rest = limit-All P (if is_empty l then suc run else 0) ls hs in
    elim (Bool-cases (is_empty l && ltb 2 (suc run))) [
      | inl dropped ↦ rw dropped rest
      | inr kept ↦ rw kept (h, rest)
    ]

line-trimmed :
    (l rest : Text)
    → is_tidy l ≡ true
    → is_trimmed rest ≡ true
    → is_trimmed (l ++ newline ∷ rest) ≡ true
unfolding is_tidy is_trimmed
line-trimmed [] [] h k = refl
line-trimmed [] (d ∷ ds) h k = ground (arith, k)
line-trimmed (c ∷ []) [] h k = ground (arith, h)
line-trimmed (c ∷ []) (d ∷ ds) h k = ground (arith, h, k)
line-trimmed (c ∷ (e ∷ l)) rest h k =
    ground (arith, h, line-trimmed (e ∷ l) rest (ground (arith, h)) k)

tidy-trimmed : (t : Text) → is_tidy t ≡ true → is_trimmed t ≡ true
unfolding is_tidy is_trimmed
tidy-trimmed [] h = refl
tidy-trimmed (c ∷ []) h = ground (arith, h)
tidy-trimmed (c ∷ (d ∷ cs)) h = ground (arith, h, tidy-trimmed (d ∷ cs))

join_lines-trimmed : (ls : List Text) → All IsTidy ls → is_trimmed (join_lines ls) ≡ true
unfolding join_lines is_trimmed
join_lines-trimmed [] h = refl
join_lines-trimmed (l ∷ []) (h, _) = tidy-trimmed l h
join_lines-trimmed (l ∷ (m ∷ ls)) (h, hs) =
    line-trimmed l (join_lines (m ∷ ls)) h (join_lines-trimmed (m ∷ ls) hs)

strip_left-trimmed : (t : Text) → is_trimmed t ≡ true → is_trimmed (strip_left t) ≡ true
unfolding strip_left is_trimmed
strip_left-trimmed [] h = refl
strip_left-trimmed (c ∷ []) h = ground (arith, h)
strip_left-trimmed (c ∷ (d ∷ cs)) h = ground (arith, h, strip_left-trimmed (d ∷ cs))

abbrev strip_cons : ℕ → Text → Text
strip_cons c rest = if is_empty rest && is_newline c then [] else c ∷ rest

strip_cons-tidy :
    (c d : ℕ) (rest : Text)
    → (not (is_newline d) || (is_newline c || not (is_space c))) ≡ true
    → is_tidy (strip_cons d rest) ≡ true
    → is_tidy (strip_cons c (strip_cons d rest)) ≡ true
unfolding is_tidy
strip_cons-tidy c d rest h k = elim (Bool-cases (is_empty rest && is_newline d)) [
  | inl dropped ↦ rw dropped (elim (Bool-cases (is_newline c)) [
    | inl stripped ↦ rw stripped refl
    | inr other ↦ rw other (ground (arith, h, dropped, other))
  ])
  | inr kept ↦
      rw kept (ground (arith, h, sym (ap (λ b. is_tidy (if b then [] else d ∷ rest)) kept) ∙ k))
]

strip_right-tidy : (t : Text) → is_trimmed t ≡ true → is_tidy (strip_right t) ≡ true
unfolding strip_right is_trimmed is_tidy
strip_right-tidy [] h = refl
strip_right-tidy (c ∷ []) h = ground (arith, h)
strip_right-tidy (c ∷ (d ∷ cs)) h =
    strip_cons-tidy c d (strip_right cs) (ground (arith, h))
      (strip_right-tidy (d ∷ cs) (ground (arith, h)))

pub normalize_source-tidy :
    (nfc : Text → Text) (hexdigest : Text → ℕ) (raw : Text)
    → is_tidy ((normalize_source nfc hexdigest raw).text) ≡ true
unfolding normalize_source
normalize_source-tidy nfc hexdigest raw =
    let lines = split_lines (nfc (replace_cr (replace_crlf false raw))) in
    let all =
      rstrip_all-IsTidy lines
        (split_lines-HasNoNewline (nfc (replace_cr (replace_crlf false raw)))) in
    let joined =
      join_lines-trimmed (limit_blank_lines 0 (rstrip_all lines))
        (limit-All IsTidy 0 (rstrip_all lines) all) in
    strip_right-tidy (strip_left (join_lines (limit_blank_lines 0 (rstrip_all lines))))
      (strip_left-trimmed (join_lines (limit_blank_lines 0 (rstrip_all lines))) joined)

-- Whatever the raw text and the Unicode normalization, when the limits are positive and ascend, the text of
-- normalize_source is segmented without an error, and the texts of the segments, joined in order, are that text: no
-- character of the source is lost, added or moved between the import of a chapter and its segments.
pub normalize_source-segments :
    (nfc : Text → Text) (hexdigest : Text → ℕ)
    → (min_han target_han max_han : ℕ) (raw : Text) → 0 < min_han
    → min_han ≤ target_han
    → target_han ≤ max_han
    → joined (
        segment_source hexdigest min_han target_han max_han
          ((normalize_source nfc hexdigest raw).text))
      ≡ ok ((normalize_source nfc hexdigest raw).text)
normalize_source-segments nfc hexdigest min_han target_han max_han raw positive low high =
    let text = (normalize_source nfc hexdigest raw).text in
    let returns = segment_source-ok hexdigest min_han target_han max_han text positive low high in
    ap joined returns
    ∙ ap ok (
        segments-join hexdigest min_han target_han max_han text
          (pack_from hexdigest min_han target_han max_han 0 nothing 0
            (units_for_source text max_han))
          (normalize_source-tidy nfc hexdigest raw) returns)
