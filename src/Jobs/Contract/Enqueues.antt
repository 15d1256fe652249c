-- ===== src/Jobs/Contract/Enqueues.antt =====
-- `enqueue` is idempotent in the key (project, kind, idempotency key).
use truyenaudio_studio.Prelude.{
  ℕ, ◌≡◌, refl, ap, ◌∙◌, String, Bool, true, Option, none, some, List, [], ◌∷◌, arith, ◌==◌,
  count_where, select_where, Option-cases, if◌then◌else◌, Bool-cases, inl, inr,
}
use truyenaudio_studio.Jobs.Schema.{Job, JobKind, Db}
use truyenaudio_studio.Jobs.Tx.{
  Tx, Result, gets, ◌>>=◌, err, rollback_to, ok, or_raise, no_result_found,
}
use truyenaudio_studio.Jobs.Rows.{has_key, conflicts, insert_job_or_ignore}
use truyenaudio_studio.Jobs.Runner.{enqueue, one_row, write_plan, new_job}

select_nothing :
    {A : Type 0} (p q : A → Bool) (xs : List A)
    → ((x : A) → p x ≡ true → q x ≡ true)
    → count_where q xs == 0 ≡ true
    → select_where p xs ≡ []
unfolding select_where count_where
select_nothing p q [] implies h = refl
select_nothing p q (x ∷ xs) implies h = elim (Bool-cases (p x)) [
  | inl both ↦ absurd (ground (arith, h, implies x both))
  | inr neither ↦ ground (arith, h, neither, select_nothing p q xs implies)
]

keyed-conflicts :
    (r : Job) (jobs : List Job)
    → count_where (conflicts r) jobs == 0 ≡ true
    → select_where (has_key r.project_id r.kind r.idempotency_key) jobs ≡ []
keyed-conflicts r jobs h =
    select_nothing (has_key r.project_id r.kind r.idempotency_key) (conflicts r) jobs
      (λ j same. ground (arith, same)) h

module _ (project_id : ℕ) (kind : JobKind) (key : ℕ) where
  abbrev keyed : Db → List Job
  keyed db = select_where (has_key project_id kind key) db.jobs

  looked_up :
      (before mid : Db) (row : Job)
      → (rollback_to before (or_raise (one_row (keyed mid)) no_result_found mid)).0 ≡ ok row
      → one_row (keyed (rollback_to before (or_raise (one_row (keyed mid)) no_result_found mid)).1)
        ≡ some row
  looked_up before mid row h = elim (Option-cases (one_row (keyed mid))) [
    | inl missing ↦ absurd (ground (arith, h, missing))
    | inr (found, is_found) ↦ ground (arith, h, is_found)
  ]

  abbrev lookup : Unit {0} → Tx Job
  lookup u = gets keyed >>= λ rows. or_raise (one_row rows) no_result_found

  looked_up_after :
      (before : Db) (out : Result (Unit {0}) × Db) (row : Job)
      → (rollback_to before (((λ db. out) >>= lookup) before)).0 ≡ ok row
      → one_row (keyed (rollback_to before (((λ db. out) >>= lookup) before)).1) ≡ some row
  looked_up_after before (ok u, mid) row h = looked_up before mid row h
  looked_up_after before (err e, mid) row h = absurd (ground (arith, h))

  -- Nothing is written for a row that was there.
  write_plan-found :
      (plan : Option String) (job_id now : ℕ) (db : Db)
      → write_plan plan 0 job_id now db ≡ (ok tt, db)
  unfolding write_plan
  write_plan-found none job_id now db = refl
  write_plan-found (some p) job_id now db = refl

  -- With a row of the key there, the call inserts nothing and returns that row.
  enqueue-found :
      (job_id : ℕ) (chapter_id : Option ℕ) (priority : ℕ) (plan : Option String) (now : ℕ) (db : Db)
      (row : Job)
      → one_row (keyed db) ≡ some row
      → enqueue job_id kind project_id chapter_id key priority plan now db ≡ (ok row, db)
  unfolding enqueue insert_job_or_ignore write_plan
  enqueue-found job_id chapter_id priority plan now db row h =
      elim (Bool-cases (
        count_where (conflicts (new_job job_id kind project_id chapter_id key priority now)) db.jobs
        == 0)) [
          | inl free ↦ absurd (
              ground (
                arith,
                h,
                keyed-conflicts (new_job job_id kind project_id chapter_id key priority now) db.jobs
                    free,
              ))
          | inr taken ↦
              (let written : write_plan plan
                      (if count_where
                            (conflicts (new_job job_id kind project_id chapter_id key priority now))
                            db.jobs
                          == 0
                        then 1
                        else 0)
                      job_id now
                      (insert_job_or_ignore
                        (new_job job_id kind project_id chapter_id key priority now) db).1
                    ≡ (ok tt, db) =
                  rw taken (write_plan-found plan job_id now db) in
                ap (λ out. rollback_to db (((λ before. out) >>= lookup) db)) written ∙ rw h refl)
        ]

  enqueue-keyed :
      (job_id : ℕ) (chapter_id : Option ℕ) (priority : ℕ) (plan : Option String) (now : ℕ) (db : Db)
      (row : Job)
      → (enqueue job_id kind project_id chapter_id key priority plan now db).0 ≡ ok row
      → one_row (keyed (enqueue job_id kind project_id chapter_id key priority plan now db).1)
        ≡ some row
  unfolding enqueue insert_job_or_ignore write_plan
  enqueue-keyed job_id chapter_id priority plan now db row h =
      let r = new_job job_id kind project_id chapter_id key priority now in
      let inserted = insert_job_or_ignore r db in
      let n = if count_where (conflicts r) db.jobs == 0 then 1 else 0 in
      looked_up_after db (write_plan plan n job_id now inserted.1) row h

  -- When `enqueue` has returned a row, a later call with the same project, kind and idempotency key
  -- returns this row and leaves the tables as they are, whatever its other arguments are.
  pub enqueue-again :
      (job_id : ℕ) (chapter_id : Option ℕ) (priority : ℕ) (plan : Option String) (now : ℕ) (db : Db)
      (row : Job) (other_id : ℕ) (other_chapter : Option ℕ) (other_priority : ℕ)
      (other_plan : Option String) (later : ℕ)
      → (enqueue job_id kind project_id chapter_id key priority plan now db).0 ≡ ok row
      → enqueue other_id kind project_id other_chapter key other_priority other_plan later
          (enqueue job_id kind project_id chapter_id key priority plan now db).1
        ≡ (ok row, (enqueue job_id kind project_id chapter_id key priority plan now db).1)
  enqueue-again job_id chapter_id priority plan now db row other_id other_chapter other_priority
        other_plan later h =
      enqueue-found other_id other_chapter other_priority other_plan later
        (enqueue job_id kind project_id chapter_id key priority plan now db).1 row
        (enqueue-keyed job_id chapter_id priority plan now db row h)
