-- ===== src/Jobs/Contract/Closing.antt =====
-- What closing the current attempt of a job does to the attempts table.
use truyenaudio_studio.Prelude.{
  ℕ, ◌≡◌, refl, ◌≤◌, Bool, some, Option, List, [], ◌∷◌, arith, ◌==◌, Option-cases, inl, inr,
  count_where, find_where, find_where-update, update_where, Distinct,
}
use truyenaudio_studio.Jobs.Schema.{JobAttempt, Outcome}
use truyenaudio_studio.Jobs.Rows.{clashes, current_attempt}
use truyenaudio_studio.Jobs.Leases.{ErrorRecord, close, is_open_attempt}
use truyenaudio_studio.Jobs.Valid.{open_count}
use truyenaudio_studio.Jobs.Valid.Counts.{current_attempt-is_open, open_count-close_by_id}

abbrev pub has_attempt_id : ℕ → JobAttempt → Bool
has_attempt_id i a = a.id == i

clashing :
    (x : JobAttempt) (xs : List JobAttempt) {c : JobAttempt}
    → find_where (has_attempt_id x.id) xs ≡ some c
    → 1 ≤ count_where (clashes x) xs
unfolding find_where count_where
clashing x [] h = cc
clashing x (y ∷ ys) {c} h = ground (arith, clashing x ys {c = c})

-- With distinct identifiers the current attempt is found by its identifier.
current-found :
    (job_id i : ℕ) (xs : List JobAttempt) {c : JobAttempt}
    → Distinct clashes xs
    → current_attempt job_id xs ≡ some c
    → c.id ≡ i
    → find_where (has_attempt_id i) xs ≡ some c
unfolding current_attempt find_where
current-found job_id i [] d h e = cc
current-found job_id i (x ∷ xs) {c} d h e = elim (Option-cases (current_attempt job_id xs)) [
  | inl idle ↦ ground (arith, h, e, idle)
  | inr (b, found) ↦
      ground
        (arith, h, e, found, current-found job_id b.id xs d.1 found, clashing x xs {c = b}, d.0)
]

module _ (job_id i now : ℕ) (o : Outcome) (p : Option ℕ) (r : Option ErrorRecord)
    (xs : List JobAttempt) {c : JobAttempt} (d : Distinct clashes xs)
    (h : current_attempt job_id xs ≡ some c) (e : c.id ≡ i) where
  pub closed-found :
      find_where (has_attempt_id i) (update_where (is_open_attempt job_id i) (close now o p r) xs)
      ≡ some (close now o p r c)
  closed-found =
      find_where-update (has_attempt_id i) (is_open_attempt job_id i) (close now o p r) xs
        (λ y. refl) (current-found job_id i xs d h e)
        (ground (arith, e, current_attempt-is_open job_id xs h))

  pub closed-none_open :
      open_count job_id xs ≡ 1
      → count_where (is_open_attempt job_id i) xs ≡ 1
      → open_count job_id (update_where (is_open_attempt job_id i) (close now o p r) xs) ≡ 0
  closed-none_open one hit =
      ground (arith, one, hit, open_count-close_by_id now o p r job_id job_id i xs)
