-- ===== src/Jobs/Contract/Claims.antt =====
-- `claim` takes the first job that is due, for one worker, with a new attempt.
use truyenaudio_studio.Prelude.{
  ℕ, ◌+◌, ◌≡◌, ◌∙◌, refl, sym, ap, subst, inl, inr, true, false, none, some, List, [], ◌∷◌, ◌++◌,
  arith, if◌then◌else◌, Option-cases, select_where, All, All-map,
}
use truyenaudio_studio.Jobs.Schema.{Job, Db}
use truyenaudio_studio.Jobs.Tx.{rollback_to, aware, ok, err, Result}
use truyenaudio_studio.Jobs.Rows.{
  has_id, find_job, row_leb, insert_row, order_rows, first_row, max_attempt_no,
}
use truyenaudio_studio.Jobs.Runner.{
  JobLease, claim, claim_job, next_ready, is_ready, to_running, new_attempt,
}
use truyenaudio_studio.Jobs.Valid.{IsValid}
use truyenaudio_studio.Jobs.Valid.Requests.{next_ready-IsReady}
use truyenaudio_studio.Jobs.Trace.Frame.{find_job-update}

row_leb_trans : (a b c : Job) → row_leb a b ≡ true → row_leb b c ≡ true → row_leb a c ≡ true
row_leb_trans a b c h k = ground arith

row_leb_total : (a b : Job) → row_leb a b ≡ false → row_leb b a ≡ true
row_leb_total a b h = ground arith

row_leb_refl : (a : Job) → row_leb a a ≡ true
row_leb_refl a = ground arith

first-insert_row :
    (x : Job) (xs : List Job) {y : Job}
    → first_row xs ≡ some y
    → first_row (insert_row x xs) ≡ some (if row_leb x y then x else y)
unfolding insert_row
first-insert_row x [] h = cc
first-insert_row x (z ∷ zs) h = ground arith

order_rows-nil : (xs : List Job) → first_row (order_rows xs) ≡ none → xs ≡ []
unfolding order_rows insert_row
order_rows-nil [] h = refl
order_rows-nil (x ∷ xs) h = elim (Option-cases (first_row (order_rows xs))) [
  | inl none_left ↦ absurd (ground (arith, h, nil_of (order_rows xs) none_left))
  | inr (y, first) ↦ absurd (ground (arith, h, first-insert_row x (order_rows xs) first))
]
  where
    nil_of : (ys : List Job) → first_row ys ≡ none → ys ≡ []
    nil_of [] e = refl
    nil_of (y ∷ ys) e = cc

-- The first of the ordered rows is at most each of them.
first_is_least :
    (xs : List Job) {r : Job}
    → first_row (order_rows xs) ≡ some r
    → All (λ x. row_leb r x ≡ true) xs
unfolding order_rows insert_row
first_is_least [] h = tt
first_is_least (x ∷ []) {r} h = (ground arith, tt)
first_is_least (x ∷ (z ∷ zs)) {r} h = elim (Option-cases (first_row (order_rows (z ∷ zs)))) [
  | inl none_left ↦ absurd (ground (arith, order_rows-nil (z ∷ zs) none_left))
  | inr (y, first) ↦
      (let at = first-insert_row x (order_rows (z ∷ zs)) first in
        (
          ground (arith, h, at),
          All-map (λ w. row_leb y w ≡ true) (λ w. row_leb r w ≡ true) (z ∷ zs)
              (λ w le. ground (arith, h, at, row_leb_trans r y w, row_leb_total x y, le))
              (first_is_least (z ∷ zs) {r = y} first),
        ))
]

rollback_ok :
    {A : Type 0} (before : Db) (out : Result A × Db) {a : A}
    → (rollback_to before out).0 ≡ ok a
    → rollback_to before out ≡ out
rollback_ok before (ok b, after) h = refl
rollback_ok before (err e, after) h = absurd (ground (arith, h))

-- What a claim that returns a lease has done with the job `r`.
pub record Takes (worker_id now : ℕ) (db : Db) (lease : JobLease) (after : Db) (r : Job)
    : Type 0 where
  pub was_there : find_job lease.job_id db.jobs ≡ some r
  pub was_ready : is_ready now r ≡ true
  pub was_first : All (λ x. row_leb r x ≡ true) (select_where (is_ready now) db.jobs)
  pub is_taken : find_job lease.job_id after.jobs ≡ some (to_running worker_id now r)
  pub numbered : lease.attempt_no ≡ max_attempt_no lease.job_id db.attempts + 1
  pub attempt_added :
      after.attempts
      ≡ db.attempts ++ new_attempt lease.attempt_id lease.job_id lease.attempt_no now ∷ []

module _ (worker_id attempt_id now : ℕ) (db : Db) (v : IsValid db) where
  claim_job-Takes :
      (r : Job) (lease : JobLease)
      → find_job r.id db.jobs ≡ some r
      → is_ready now r ≡ true
      → All (λ x. row_leb r x ≡ true) (select_where (is_ready now) db.jobs)
      → (claim_job worker_id attempt_id now (some r) db).0 ≡ ok (some lease)
      → Takes worker_id now db lease (claim_job worker_id attempt_id now (some r) db).1 r
  unfolding claim_job
  claim_job-Takes r lease found ready least done =
      let taken =
        find_job-update r.id (has_id r.id) (to_running worker_id now) db.jobs (λ x. refl) found in
      let same : lease.job_id ≡ r.id = ground (arith, done) in
      record {
        was_there = rw same found;
        was_ready = ready;
        was_first = least;
        is_taken = rw same (ground (arith, taken));
        numbered = ground (arith, done);
        attempt_added = ground (arith, done);
      }

  -- What a claim that chose `found` has done, whether or not it was rolled back.
  claim_found-Takes :
      (r : Job) (lease : JobLease)
      → find_job r.id db.jobs ≡ some r
      → is_ready now r ≡ true
      → All (λ x. row_leb r x ≡ true) (select_where (is_ready now) db.jobs)
      → (rollback_to db (claim_job worker_id attempt_id now (some r) db)).0 ≡ ok (some lease)
      → Takes worker_id now db lease
          (rollback_to db (claim_job worker_id attempt_id now (some r) db)).1
          r
  claim_found-Takes r lease found ready least done =
      let same = rollback_ok db (claim_job worker_id attempt_id now (some r) db) done in
      subst (λ out. Takes worker_id now db lease out.1 r) (sym same)
        (claim_job-Takes r lease found ready least (ap (λ out. out.0) (sym same) ∙ done))

  -- On valid tables, a `claim` that returns a lease has taken a job that was queued and due, and no such
  -- job stood before it in priority and identifier; the job is RUNNING for this worker until 60 seconds
  -- from now, and its one new attempt has the next number.
  pub claim-Takes :
      (lease : JobLease)
      → (claim worker_id attempt_id (aware now) db).0 ≡ ok (some lease)
      → (r : Job) × Takes worker_id now db lease (claim worker_id attempt_id (aware now) db).1 r
  unfolding claim
  claim-Takes lease done = elim (Option-cases (next_ready now db.jobs)) [
    | inl idle ↦ absurd (ground (arith, idle, done))
    | inr (r, first) ↦ (
      r,
      (let ready = next_ready-IsReady db v now {r = r} first in
          let least =
            first_is_least (select_where (is_ready now) db.jobs) {r = r}
              (unfold next_ready in first) in
          rw first (
            claim_found-Takes r lease ready.0 ready.1 least (
              subst
                (λ o.
                  (rollback_to db (claim_job worker_id attempt_id now o db)).0 ≡ ok (some lease))
                first done))),
    )
  ]
