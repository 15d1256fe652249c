-- ===== src/Jobs/Valid/Counts.antt =====
-- How the statements on attempts change the number of open attempts of a job.
use truyenaudio_studio.Prelude.{
  ℕ, ◌+◌, ◌-◌, ◌≤◌, ◌≡◌, refl, Bool, true, Option, none, some, List, [], ◌∷◌, ◌&&◌, arith, ◌==◌,
  if◌then◌else◌, Option-cases, inl, inr, count_where, update_where, count-update_off, count_nothing,
  Distinct,
}
use truyenaudio_studio.Jobs.Schema.{JobAttempt, Outcome, is_open_of}
use truyenaudio_studio.Jobs.Rows.{clashes, current_attempt}
use truyenaudio_studio.Jobs.Leases.{ErrorRecord, close, is_open_attempt, is_attempt}
use truyenaudio_studio.Jobs.Valid.{open_count}

-- The row that is found is open, and of the job.
pub current_attempt-is_open :
    (job_id : ℕ) (xs : List JobAttempt) {c : JobAttempt}
    → current_attempt job_id xs ≡ some c
    → is_open_of job_id c ≡ true
unfolding current_attempt
current_attempt-is_open job_id [] h = cc
current_attempt-is_open job_id (x ∷ xs) h = elim (Option-cases (current_attempt job_id xs)) [
  | inl e ↦ ground arith
  | inr (b, e) ↦ ground (arith, current_attempt-is_open job_id xs e)
]

pub current_attempt-none :
    (job_id : ℕ) (xs : List JobAttempt)
    → current_attempt job_id xs ≡ none
    → open_count job_id xs ≡ 0
unfolding current_attempt count_where
current_attempt-none job_id [] h = refl
current_attempt-none job_id (x ∷ xs) h = ground (arith, current_attempt-none job_id xs)

pub current_attempt-some :
    (job_id : ℕ) (xs : List JobAttempt) {c : JobAttempt}
    → current_attempt job_id xs ≡ some c
    → 1 ≤ open_count job_id xs
unfolding current_attempt count_where
current_attempt-some job_id [] h = cc
current_attempt-some job_id (x ∷ xs) h = elim (Option-cases (current_attempt job_id xs)) [
  | inl e ↦ ground arith
  | inr (b, e) ↦ ground (arith, current_attempt-some job_id xs e)
]

abbrev pub is_open_row : ℕ → ℕ → JobAttempt → Bool
is_open_row k attempt_id a = a.id == attempt_id && is_open_of k a

-- With distinct identifiers the current attempt is the only row of its identifier.
clash_by_id :
    (x : JobAttempt) (k attempt_id : ℕ) (xs : List JobAttempt)
    → x.id ≡ attempt_id
    → count_where (clashes x) xs ≡ 0
    → count_where (is_open_row k attempt_id) xs ≡ 0
unfolding count_where
clash_by_id x k attempt_id [] e h = refl
clash_by_id x k attempt_id (y ∷ ys) e h = ground (arith, clash_by_id x k attempt_id ys e)

pub count-current :
    (job_id k : ℕ) (xs : List JobAttempt) {c : JobAttempt}
    → Distinct clashes xs
    → current_attempt job_id xs ≡ some c
    → count_where (is_open_row k c.id) xs ≡ (if job_id == k then 1 else 0)
unfolding current_attempt count_where
count-current job_id k [] d h = cc
count-current job_id k (x ∷ xs) {c} d h = elim (Option-cases (current_attempt job_id xs)) [
  | inl e ↦ ground (arith, clash_by_id x k c.id xs)
  | inr (b, e) ↦ ground (
    arith,
    clash_by_id x k c.id xs,
    clash_by_id x job_id b.id xs,
    count-current job_id k xs d.1 e,
    count-current job_id job_id xs d.1 e,
  )
]

module _ (now : ℕ) (o : Outcome) (r : Option ℕ) (e : Option ErrorRecord) where
  -- Closing an open attempt of a job by its identifier.
  pub open_count-close_by_id :
      (k job_id attempt_id : ℕ) (xs : List JobAttempt)
      → open_count k (update_where (is_open_attempt job_id attempt_id) (close now o r e) xs)
          + (if job_id == k then count_where (is_open_attempt job_id attempt_id) xs else 0)
        ≡ open_count k xs
  unfolding update_where count_where
  open_count-close_by_id k job_id attempt_id [] = ground arith
  open_count-close_by_id k job_id attempt_id (x ∷ xs) =
      ground (arith, open_count-close_by_id k job_id attempt_id xs)

  -- Closing the current attempt of a job, if it has one.
  pub open_count-close_current :
      (k job_id : ℕ) (xs : List JobAttempt)
      → Distinct clashes xs
      → open_count k (update_where (is_attempt (current_attempt job_id xs)) (close now o r e) xs)
        ≡ open_count k xs - (if job_id == k then 1 else 0)
  open_count-close_current k job_id xs d = elim (Option-cases (current_attempt job_id xs)) [
    | inl none_open ↦ rw none_open (
        ground (
          arith,
          current_attempt-none job_id xs none_open,
          count-update_off (is_open_of k) (is_attempt none) (close now o r e) xs
              (λ x. ground arith),
          count_nothing (λ x. is_attempt none x && is_open_of k x) xs (λ x. refl),
        ))
    | inr (c, found) ↦ rw found (
        ground (
          arith,
          count-current job_id k xs d found,
          count-update_off (is_open_of k) (is_attempt (some c)) (close now o r e) xs
              (λ x. ground arith),
        ))
  ]
