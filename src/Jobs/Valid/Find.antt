-- ===== src/Jobs/Valid/Find.antt =====
-- Rows found by a query: with distinct identifiers a row is the only one of its identifier, and the
-- first of the ordered rows that pass a test.
use truyenaudio_studio.Prelude.{
  ℕ, ◌≤◌, ◌≡◌, refl, inl, inr, Bool, true, false, Option, some, List, [], ◌∷◌, ◌&&◌, arith, ◌==◌,
  Bool-cases, count_where, select_where, find_where, All, All-map, All-zip, Distinct,
}
use truyenaudio_studio.Jobs.Schema.{Job}
use truyenaudio_studio.Jobs.Rows.{
  conflicts, has_id, find_job, row_leb, insert_row, order_rows, first_row,
}

All-absent :
    (x : Job) (xs : List Job)
    → count_where (conflicts x) xs ≡ 0
    → All (λ r. has_id x.id r ≡ false) xs
unfolding count_where
All-absent x [] h = tt
All-absent x (y ∷ ys) h = (ground arith, All-absent x ys (ground arith))

-- Each row of a table is found by its identifier.
pub All-find_job : (xs : List Job) → Distinct conflicts xs → All (λ r. find_job r.id xs ≡ some r) xs
unfolding find_job find_where
All-find_job [] d = tt
All-find_job (x ∷ xs) d = (
  ground arith,
  All-map (λ r. (find_job r.id xs ≡ some r) × (has_id x.id r ≡ false))
      (λ r. find_job r.id (x ∷ xs) ≡ some r) xs (λ r h. ground arith)
      (All-zip (λ r. find_job r.id xs ≡ some r) (λ r. has_id x.id r ≡ false) xs
        (All-find_job xs d.1) (All-absent x xs d.0)),
)

-- The row that is found is the only one of the identifier.
pub find_job_unique :
    (i : ℕ) (xs : List Job) {r : Job}
    → Distinct conflicts xs
    → find_job i xs ≡ some r
    → All (λ s. has_id i s ≡ true → s ≡ r) xs
unfolding find_job find_where
find_job_unique i [] d h = tt
find_job_unique i (x ∷ xs) {r} d h = elim (Bool-cases (x.id == i)) [
  | inl hit ↦ (
    ground arith,
    All-map (λ s. has_id x.id s ≡ false) (λ s. has_id i s ≡ true → s ≡ r) xs
        (λ s off on. ground arith) (All-absent x xs d.0),
  )
  | inr miss ↦ (ground arith, find_job_unique i xs d.1 (ground arith))
]

pub find_job-has_id : (i : ℕ) (xs : List Job) {r : Job} → find_job i xs ≡ some r → (r.id ≡ i)
unfolding find_job find_where
find_job-has_id i [] h = cc
find_job-has_id i (x ∷ xs) {r} h = ground (arith, find_job-has_id i xs {r = r})

pub find_job-count :
    (i : ℕ) (xs : List Job) {r : Job} → find_job i xs ≡ some r → 1 ≤ count_where (has_id i) xs
unfolding find_job find_where count_where
find_job-count i [] h = cc
find_job-count i (x ∷ xs) {r} h = ground (arith, find_job-count i xs {r = r})

no_other :
    (i : ℕ) (p : Job → Bool) (x : Job) (xs : List Job)
    → x.id ≡ i
    → count_where (conflicts x) xs ≡ 0
    → count_where (λ r. has_id i r && p r) xs ≡ 0
unfolding count_where
no_other i p x [] e h = refl
no_other i p x (y ∷ ys) e h = ground (arith, no_other i p x ys e)

-- If exactly one row passes a test that includes the identifier, the row of that identifier does.
pub only_row_passes :
    (i : ℕ) (p : Job → Bool) (xs : List Job)
    → Distinct conflicts xs
    → count_where (λ r. has_id i r && p r) xs ≡ 1
    → All (λ r. has_id i r ≡ true → (has_id i r && p r) ≡ true) xs
unfolding count_where
only_row_passes i p [] d h = tt
only_row_passes i p (x ∷ xs) d h = elim (Bool-cases (x.id == i)) [
  | inl hit ↦ (
    ground (arith, no_other i p x xs),
    All-map (λ s. has_id x.id s ≡ false) (λ r. has_id i r ≡ true → (has_id i r && p r) ≡ true) xs
        (λ s off on. ground arith) (All-absent x xs d.0),
  )
  | inr miss ↦ (ground arith, only_row_passes i p xs d.1 (ground arith))
]

module _ (P : Job → Type 0) where
  pub All-select_where :
      (p : Job → Bool) (xs : List Job)
      → All P xs
      → All (λ r. P r × (p r ≡ true)) (select_where p xs)
  unfolding select_where
  All-select_where p [] a = tt
  All-select_where p (x ∷ xs) a = elim (Bool-cases (p x)) [
    | inl hit ↦ rw hit ((a.0, hit), All-select_where p xs a.1)
    | inr miss ↦ rw miss (All-select_where p xs a.1)
  ]

  pub All-insert_row : (r : Job) (xs : List Job) → P r → All P xs → All P (insert_row r xs)
  unfolding insert_row
  All-insert_row r [] h a = (h, tt)
  All-insert_row r (x ∷ xs) h a = elim (Bool-cases (row_leb r x)) [
    | inl first ↦ rw first (h, a)
    | inr after ↦ rw after (a.0, All-insert_row r xs h a.1)
  ]

  pub All-order_rows : (xs : List Job) → All P xs → All P (order_rows xs)
  unfolding order_rows
  All-order_rows [] a = tt
  All-order_rows (x ∷ xs) a = All-insert_row x (order_rows xs) a.0 (All-order_rows xs a.1)

  pub All-first_row : (xs : List Job) {r : Job} → All P xs → first_row xs ≡ some r → P r
  All-first_row [] a h = cc
  All-first_row (x ∷ xs) a h = subst_some x h a.0
    where
      subst_some : (y : Job) {z : Job} → ◌≡◌ {A = Option Job} (some y) (some z) → P y → P z
      subst_some y e py = ground arith

-- The row of an identifier is the only one that passes a test with that identifier.
pub found-count :
    (i : ℕ) (p : Job → Bool) (xs : List Job) {r : Job}
    → Distinct conflicts xs
    → find_job i xs ≡ some r
    → p r ≡ true
    → count_where (λ r. has_id i r && p r) xs ≡ 1
unfolding find_job find_where count_where
found-count i p [] d h e = cc
found-count i p (x ∷ xs) {r} d h e =
    ground (arith, no_other i p x xs, found-count i p xs {r = r} d.1)
