-- ===== src/Jobs/Trace/Recovers.antt =====
-- `recover_expired` always returns, names the expired jobs, and leaves none of them held.
use truyenaudio_studio.Prelude.{
  ℕ, ◌+◌, ◌≡◌, ◌≢◌, refl, ◌∙◌, ap, inl, inr, Bool, true, false, not, ◌&&◌, Option, none, some, List,
  [], ◌∷◌, arith, ◌==◌, is_some, Bool-cases, Option-cases, ==_iff, subst, update_where, count_where,
  All, All-map, map,
}
use truyenaudio_studio.Jobs.Schema.{
  Job, Db, is_held, is_cancel_requested, billing_unknown, canceled, failed, seconds,
}
use truyenaudio_studio.Jobs.Tx.{Result, ok}
use truyenaudio_studio.Jobs.Retry.{classify_retry, RetryDecision}
use truyenaudio_studio.Jobs.Rows.{has_id, find_job, max_attempt_no, current_attempt}
use truyenaudio_studio.Jobs.Leases.{to_terminal, to_queued}
use truyenaudio_studio.Jobs.Failure.{delay_or_zero, says_retry}
use truyenaudio_studio.Jobs.Recovery.{
  recover_rows, recover_one, recover_row, recover_unsent, expired_error, provider_request_id_of,
}
use truyenaudio_studio.Jobs.Valid.Find.{find_job-has_id}
use truyenaudio_studio.Jobs.Trace.Frame.{find_job-update}
use truyenaudio_studio.Jobs.Trace.Final.{recover_one-other}

abbrev pub is_free_row : Option Job → Bool
is_free_row none = false
is_free_row (some r) = not (is_held r.status)

-- The job has a row, which no worker holds.
abbrev pub is_released : ℕ → Db → Bool
is_released i db = is_free_row (find_job i db.jobs)

module _ (db : Db) (row r : Job) (found : find_job row.id db.jobs ≡ some r) (now : ℕ) where
  hit :
      (g : Job → Job)
      → ((x : Job) → (g x).id ≡ x.id)
      → find_job row.id (update_where (has_id row.id) g db.jobs) ≡ some (g r)
  hit g same =
      find_job-update row.id (has_id row.id) g db.jobs same found
      ∙ ground (arith, find_job-has_id row.id db.jobs found)

  -- One round of the loop returns the new row, which nobody holds.
  abbrev Recovered : Result Job × Db → Type 0
  Recovered out =
      (x : Job) × (out.0 ≡ ok x)
      × (find_job row.id out.1.jobs ≡ some x)
      × (is_held x.status ≡ false)

  recover_unsent-Recovered : (d : RetryDecision) → Recovered (recover_unsent now row.id d db)
  unfolding recover_unsent
  recover_unsent-Recovered d = elim (Bool-cases (says_retry d.disposition)) [
    | inl again ↦ rw again (
        let g = to_queued now (now + seconds (delay_or_zero d.delay_seconds)) expired_error in
        (g r, ground (arith, hit g (λ x. refl)), ground (arith, hit g (λ x. refl)), refl))
    | inr never ↦ rw never (
        let g =
          to_terminal failed now none (some expired_error.code) (some expired_error.summary) in
        (g r, ground (arith, hit g (λ x. refl)), ground (arith, hit g (λ x. refl)), refl))
  ]

  recover_row-Recovered :
      (request_id : Option ℕ) (n : ℕ) → Recovered (recover_row now row request_id n db)
  unfolding recover_row
  recover_row-Recovered (some request_id) n =
      let g =
        to_terminal billing_unknown now none (some "BILLING_UNKNOWN")
          (some "Provider request was sent before lease expired") in
      (g r, ground (arith, hit g (λ x. refl)), ground (arith, hit g (λ x. refl)), refl)
  recover_row-Recovered none n = elim (Bool-cases (is_cancel_requested row.status)) [
    | inl asked ↦ rw asked (
        let g = to_terminal canceled now none none none in
        (g r, ground (arith, hit g (λ x. refl)), ground (arith, hit g (λ x. refl)), refl))
    | inr unasked ↦ rw unasked (recover_unsent-Recovered (classify_retry expired_error.code n none))
  ]

  recover_one-Recovered : Recovered (recover_one now row db)
  unfolding recover_one
  recover_one-Recovered =
      recover_row-Recovered (provider_request_id_of (current_attempt row.id db.attempts))
        (max_attempt_no row.id db.attempts)

recovered_at :
    (db : Db) (i now : ℕ) (row r : Job)
    → row.id ≡ i
    → find_job i db.jobs ≡ some r
    → (x : Job) × ((recover_one now row db).0 ≡ ok x)
      × (find_job i (recover_one now row db).1.jobs ≡ some x)
      × (is_held x.status ≡ false)
recovered_at db i now row r e =
    subst
      (λ (k : ℕ).
        find_job k db.jobs ≡ some r
        → (x : Job) × ((recover_one now row db).0 ≡ ok x)
          × (find_job k (recover_one now row db).1.jobs ≡ some x)
          × (is_held x.status ≡ false))
      e (λ found. recover_one-Recovered db row r found now)

-- The row is released by its own round, and kept released or left alone by any other.
recover_one-released :
    (db : Db) (i now : ℕ) (row r : Job)
    → find_job i db.jobs ≡ some r
    → (is_held r.status && not (row.id == i)) ≡ false
    → is_released i (recover_one now row db).1 ≡ true
recover_one-released db i now row r found h = elim (Bool-cases (row.id == i)) [
  | inl own ↦
      (let (x, _, at, off) = recovered_at db i now row r ((==_iff row.id i).0 own) found in
        ground (arith, at, off))
  | inr other ↦ ground (arith, h, recover_one-other db i r found now row (ground arith))
]

recover_one-exists :
    (db : Db) (i now : ℕ) (row r : Job)
    → find_job i db.jobs ≡ some r
    → is_some (find_job i (recover_one now row db).1.jobs) ≡ true
recover_one-exists db i now row r found = elim (Bool-cases (row.id == i)) [
  | inl own ↦
      (let (x, _, at, off) = recovered_at db i now row r ((==_iff row.id i).0 own) found in
        ground (arith, at))
  | inr other ↦ ground (arith, recover_one-other db i r found now row (ground arith))
]

abbrev pub Exists : Db → Job → Type 0
Exists db row = is_some (find_job row.id db.jobs) ≡ true

recover_one-Exists :
    (db : Db) (now : ℕ) (row other : Job)
    → Exists db other
    → Exists (recover_one now row db).1 other
recover_one-Exists db now row other h = elim (Option-cases (find_job other.id db.jobs)) [
  | inl missing ↦ absurd (ground (arith, h, missing))
  | inr (r, found) ↦ recover_one-exists db other.id now row r found
]

recover_one-ok :
    (db : Db) (now : ℕ) (row : Job)
    → Exists db row
    → (x : Job) × ((recover_one now row db).0 ≡ ok x)
recover_one-ok db now row h = elim (Option-cases (find_job row.id db.jobs)) [
  | inl missing ↦ absurd (ground (arith, h, missing))
  | inr (r, found) ↦ (let (x, done, _, _) = recover_one-Recovered db row r found now in (x, done))
]

-- The identifiers of the rows.
abbrev pub row_ids : List Job → List ℕ
row_ids rows = map (λ row. row.id) rows

Exists-after :
    (rows : List Job) (db : Db) (now : ℕ) (row : Job)
    → All (Exists db) rows
    → All (Exists (recover_one now row db).1) rows
Exists-after rows db now row known =
    All-map (Exists db) (Exists (recover_one now row db).1) rows
      (λ other h. recover_one-Exists db now row other h) known

-- Every round returns, so the loop does, and it lists the rows that it was given.
pub recover_rows-ok :
    (rows : List Job) (db : Db) (now : ℕ)
    → All (Exists db) rows
    → (recover_rows now rows db).0 ≡ ok (row_ids rows)
unfolding recover_rows
recover_rows-ok [] db now known = refl
recover_rows-ok (row ∷ rows) db now (h, known) =
    let (x, done) = recover_one-ok db now row h in
    ground (
      arith,
      done,
      recover_rows-ok rows (recover_one now row db).1 now (Exists-after rows db now row known),
    )

-- A job without a holder stays so, and one of the rows loses its holder.
pub recover_rows-released :
    (rows : List Job) (db : Db) (i now : ℕ) (r : Job)
    → All (Exists db) rows
    → find_job i db.jobs ≡ some r
    → (is_held r.status && (count_where (has_id i) rows == 0)) ≡ false
    → is_released i (recover_rows now rows db).1 ≡ true
unfolding recover_rows count_where
recover_rows-released [] db i now r known found h = ground (arith, found, h)
recover_rows-released (row ∷ rows) db i now r (k, known) found h =
    let (x, done) = recover_one-ok db now row k in
    let after = (recover_one now row db).1 in
    elim (Option-cases (find_job i after.jobs)) [
      | inl missing ↦ absurd (ground (arith, missing, recover_one-exists db i now row r found))
      | inr (r', found') ↦ ground (
        arith,
        done,
        h,
        found',
        found,
        ap (λ (o : Option Job). is_free_row o) found',
        recover_one-released db i now row r found,
        λ (other : row.id ≢ i). recover_one-other db i r found now row other,
        recover_rows-released rows after i now r' (Exists-after rows db now row known) found',
      )
    ]
