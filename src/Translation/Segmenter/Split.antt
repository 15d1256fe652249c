-- ===== src/Translation/Segmenter/Split.antt =====
-- `_split_long_sentence`: the parts join to the sentence, and none has more Han characters than allowed.
use mathlib.Core.List.{append-nil}
use truyenaudio_studio.Prelude.{
  subst, ℕ, zero, suc, ◌+◌, ◌≤◌, ◌<◌, ◌≡◌, refl, sym, ap, ◌∙◌, ◌⊎◌, ◌&&◌, Option, none, some, List,
  [], ◌∷◌, ◌++◌, arith, ltb, leb, Bool-cases, inl, inr, count_where, All,
}
use truyenaudio_studio.Prelude.Lists.{length}
use truyenaudio_studio.Translation.Text.{Text, join, han_count}
use truyenaudio_studio.Translation.Segmenter.{
  best_from, best_long_split_index, or_else, mark_after, han_after, is_long_split_mark, take, drop,
  add_text, split_from,
}

-- The split index `k` found behind index `i`: a mark that was known before, or an end of some characters
-- that keeps the count within the limit.
abbrev IsSplit : ℕ → ℕ → ℕ → Option ℕ → Text → ℕ → Type 0
IsSplit max_han i seen mark cs k =
    (mark ≡ some k)
    ⊎ ((j : ℕ) × (k ≡ suc (i + j))
        × (j < length cs)
        × (seen + han_count (take (suc j) cs) ≤ max_han))

module _ (max_han : ℕ) where
  -- The index behind the character that is read.
  here-IsSplit :
      (i seen : ℕ) (mark : Option ℕ) (c : ℕ) (cs : Text)
      → seen < max_han
      → IsSplit max_han i seen mark (c ∷ cs) (suc i)
  unfolding count_where take
  here-IsSplit i seen mark c cs below = inr (0, omega arith, omega arith, ground (arith, below))

  mark-cases :
      (i seen : ℕ) (mark : Option ℕ) (c : ℕ)
      → (mark_after max_han i seen mark c ≡ some (suc i))
        ⊎ (mark_after max_han i seen mark c ≡ mark)
  mark-cases i seen mark c =
      elim (Bool-cases (is_long_split_mark c && (ltb 0 seen && leb seen max_han))) [
        | inl marked ↦ inl (rw marked refl)
        | inr plain ↦ inr (rw plain refl)
      ]

  marked-IsSplit :
      (i seen : ℕ) (mark : Option ℕ) (c : ℕ) (cs : Text) {k : ℕ}
      → seen < max_han
      → mark_after max_han i (han_after seen c) mark c ≡ some k
      → IsSplit max_han i seen mark (c ∷ cs) k
  marked-IsSplit i seen mark c cs {k} below e = elim (mark-cases i (han_after seen c) mark c) [
    | inl now ↦
        (let same : suc i ≡ k = ground (arith, sym now ∙ e) in
          subst (IsSplit max_han i seen mark (c ∷ cs)) same (here-IsSplit i seen mark c cs below))
    | inr before ↦ inl (sym before ∙ e)
  ]

  full-IsSplit :
      (i seen : ℕ) (mark after : Option ℕ) (c : ℕ) (cs : Text)
      → seen < max_han
      → mark_after max_han i (han_after seen c) mark c ≡ after
      → IsSplit max_han i seen mark (c ∷ cs) (or_else after (suc i))
  full-IsSplit i seen mark none c cs below e = here-IsSplit i seen mark c cs below
  full-IsSplit i seen mark (some k) c cs below e = marked-IsSplit i seen mark c cs {k = k} below e

  later-IsSplit :
      (i seen : ℕ) (mark : Option ℕ) (c : ℕ) (cs : Text) (k : ℕ)
      → seen < max_han
      → IsSplit max_han
          (suc i)
          (han_after seen c)
          (mark_after max_han i (han_after seen c) mark c)
          cs
          k
      → IsSplit max_han i seen mark (c ∷ cs) k
  unfolding count_where take
  later-IsSplit i seen mark c cs k below (inl e) = marked-IsSplit i seen mark c cs {k = k} below e
  later-IsSplit i seen mark c cs k below (inr (j, e, lt, le)) =
      inr (suc j, omega (arith, e), omega (arith, lt), ground (arith, le))

  best-IsSplit :
      (i seen : ℕ) (mark : Option ℕ) (cs : Text)
      → seen < max_han
      → max_han < seen + han_count cs
      → IsSplit max_han i seen mark cs (best_from max_han i seen mark cs)
  unfolding best_from count_where
  best-IsSplit i seen mark [] below above = absurd (omega arith)
  best-IsSplit i seen mark (c ∷ cs) below above =
      elim (Bool-cases (leb max_han (han_after seen c))) [
        | inl full ↦ rw full (
            full-IsSplit i seen mark (mark_after max_han i (han_after seen c) mark c) c cs below
              refl)
        | inr more ↦ rw more (
            later-IsSplit i seen mark c cs
              (best_from max_han (suc i) (han_after seen c)
                (mark_after max_han i (han_after seen c) mark c) cs)
              below
              (best-IsSplit (suc i) (han_after seen c)
                (mark_after max_han i (han_after seen c) mark c) cs (ground (arith, more))
                (ground (arith, above))))
      ]

  -- A round takes some characters, at most the limit of Han characters among them.
  best-takes :
      (s : Text)
      → 0 < max_han
      → max_han < han_count s
      → (j : ℕ) × (best_long_split_index s max_han ≡ suc j)
        × (j < length s)
        × (han_count (take (suc j) s) ≤ max_han)
  best-takes s positive long = elim (best-IsSplit 0 0 none s positive (omega arith)) [
    | inl e ↦ absurd (ground (arith, e))
    | inr (j, e, lt, le) ↦ (j, omega (arith, e), lt, omega (arith, le))
  ]

take-drop : (n : ℕ) (s : Text) → take n s ++ drop n s ≡ s
unfolding take drop
take-drop zero s = refl
take-drop (suc n) [] = refl
take-drop (suc n) (c ∷ cs) = ap (λ t. c ∷ t) (take-drop n cs)

length-drop : (j : ℕ) (s : Text) → j < length s → length (drop (suc j) s) < length s
unfolding drop
length-drop j [] lt = absurd (omega arith)
length-drop zero (c ∷ cs) lt = omega arith
length-drop (suc j) (c ∷ cs) lt = omega (arith, length-drop j cs (omega arith))

join-add_text : (t : Text) (ts : List Text) → join (add_text t ts) ≡ t ++ join ts
join-add_text [] ts = refl
join-add_text (c ∷ cs) ts = refl

-- The parts of a sentence join to it.
pub split-join : (fuel max_han : ℕ) (s : Text) → join (split_from fuel max_han s) ≡ s
unfolding split_from
split-join zero max_han s = join-add_text s [] ∙ append-nil s
split-join (suc fuel) max_han s = elim (Bool-cases (ltb max_han (han_count s))) [
  | inl long ↦ rw long (
      join-add_text (take (best_long_split_index s max_han) s)
        (split_from fuel max_han (drop (best_long_split_index s max_han) s))
      ∙ ap (λ t. take (best_long_split_index s max_han) s ++ t)
          (split-join fuel max_han (drop (best_long_split_index s max_han) s))
      ∙ take-drop (best_long_split_index s max_han) s)
  | inr short ↦ rw short (join-add_text s [] ∙ append-nil s)
]

abbrev pub IsWithin : ℕ → Text → Type 0
IsWithin max_han t = han_count t ≤ max_han

All-add_text :
    (max_han : ℕ) (t : Text) (ts : List Text)
    → IsWithin max_han t
    → All (IsWithin max_han) ts
    → All (IsWithin max_han) (add_text t ts)
All-add_text max_han [] ts h hs = hs
All-add_text max_han (c ∷ cs) ts h hs = (h, hs)

-- With the sentence's length as fuel, every part is within the limit.
pub split-IsWithin :
    (fuel max_han : ℕ) (s : Text)
    → 0 < max_han
    → length s ≤ fuel
    → All (IsWithin max_han) (split_from fuel max_han s)
unfolding split_from
split-IsWithin zero max_han [] positive enough = tt
split-IsWithin zero max_han (c ∷ cs) positive enough = absurd (omega arith)
split-IsWithin (suc fuel) max_han s positive enough =
    elim (Bool-cases (ltb max_han (han_count s))) [
      | inl long ↦ rw long (
          let (j, at, lt, within) = best-takes max_han s positive (ground arith) in
          All-add_text max_han (take (best_long_split_index s max_han) s)
            (split_from fuel max_han (drop (best_long_split_index s max_han) s)) (rw at within)
            (split-IsWithin fuel max_han (drop (best_long_split_index s max_han) s) positive
              (rw at (omega (arith, length-drop j s lt)))))
      | inr short ↦ rw short (All-add_text max_han s [] (ground (arith, short)) tt)
    ]
