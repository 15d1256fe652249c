-- ===== src/Jobs/Trace/Ordered.antt =====
-- Rows in the order of the queue, and that ordering the rows of a query puts them in it and loses none.
use truyenaudio_studio.Prelude.{
  ◌≤◌, ◌≡◌, refl, Bool, true, false, List, [], ◌∷◌, ◌&&◌, arith, inl, inr, Bool-cases, count_where,
  select_where, All, All-map,
}
use truyenaudio_studio.Jobs.Schema.{Job}
use truyenaudio_studio.Jobs.Rows.{row_leb, insert_row, order_rows}
use truyenaudio_studio.Jobs.Valid.Find.{All-insert_row}

-- Smaller priorities come first, and smaller identifiers within a priority.
abbrev pub NotAfter : Job → Job → Type 0
NotAfter a b = (a.priority ≤ b.priority) × (a.priority ≡ b.priority → a.id ≤ b.id)

-- No row comes after a later one.
abbrev pub InOrder : List Job → Type 0
InOrder [] = Unit {0}
InOrder (x ∷ xs) = All (NotAfter x) xs × InOrder xs

NotAfter-first : (a b : Job) → row_leb a b ≡ true → NotAfter a b
NotAfter-first a b h = (ground arith, λ e. ground arith)

NotAfter-second : (a b : Job) → row_leb a b ≡ false → NotAfter b a
NotAfter-second a b h = (ground arith, λ e. ground arith)

NotAfter-trans : (a b c : Job) → NotAfter a b → NotAfter b c → NotAfter a c
NotAfter-trans a b c h k = (omega arith, λ e. ground (arith, h.0, h.1, k.0, k.1))

insert_row-InOrder : (r : Job) (xs : List Job) → InOrder xs → InOrder (insert_row r xs)
unfolding insert_row
insert_row-InOrder r [] h = (tt, tt)
insert_row-InOrder r (x ∷ xs) h = elim (Bool-cases (row_leb r x)) [
  | inl first ↦
      let before = NotAfter-first r x first in
      rw first (
        (before, All-map (NotAfter x) (NotAfter r) xs (λ y k. NotAfter-trans r x y before k) h.0),
        h,
      )
  | inr after ↦ rw after (
    All-insert_row (NotAfter x) r xs (NotAfter-second r x after) h.0,
    insert_row-InOrder r xs h.1,
  )
]

pub order_rows-InOrder : (xs : List Job) → InOrder (order_rows xs)
unfolding order_rows
order_rows-InOrder [] = tt
order_rows-InOrder (x ∷ xs) = insert_row-InOrder x (order_rows xs) (order_rows-InOrder xs)

pub count-select_where :
    (p q : Job → Bool) (xs : List Job)
    → count_where p (select_where q xs) ≡ count_where (λ x. q x && p x) xs
unfolding count_where select_where
count-select_where p q [] = refl
count-select_where p q (x ∷ xs) = ground (arith, count-select_where p q xs)
