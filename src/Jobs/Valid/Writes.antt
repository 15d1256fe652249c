-- ===== src/Jobs/Valid/Writes.antt =====
-- The writes of the queue keep the invariant, one rule for each shape of write.
use truyenaudio_studio.Prelude.{
  ℕ, ap, ◌∙◌, ◌≡◌, refl, inl, inr, Bool, true, false, Option, none, List, arith, if◌then◌else◌,
  Bool-cases, count_where, update_where, All, All-zip, All-update, Distinct-update, count-update,
}
use truyenaudio_studio.Jobs.Schema.{Job, JobAttempt, JobStatus, EventLog, Db, Outcome, is_held}
use truyenaudio_studio.Jobs.Rows.{conflicts, has_id, clashes, current_attempt}
use truyenaudio_studio.Jobs.Leases.{ErrorRecord, close, is_open_attempt, is_attempt, holds_lease}
use truyenaudio_studio.Jobs.Valid.{IsValid, IsLeased, LeasedIn, IsKnownIn, open_count}
use truyenaudio_studio.Jobs.Valid.Counts.{open_count-close_by_id, open_count-close_current}
use truyenaudio_studio.Jobs.Valid.Find.{only_row_passes}

-- The columns that no write of the queue changes.
pub record SameKeys (x y : Job) : Type 0 where
  pub same_id : y.id ≡ x.id
  pub same_kind : y.kind ≡ x.kind
  pub same_project : y.project_id ≡ x.project_id
  pub same_key : y.idempotency_key ≡ x.idempotency_key

-- A row that no worker holds any more.
pub record IsFreed (y : Job) : Type 0 where
  pub not_held : is_held y.status ≡ false
  pub no_owner : y.lease_owner ≡ none
  pub no_lease : y.lease_expires_at ≡ none

pub record SameAttempt (x y : JobAttempt) : Type 0 where
  pub same_id : y.id ≡ x.id
  pub same_job : y.job_id ≡ x.job_id
  pub same_no : y.attempt_no ≡ x.attempt_no

pub conflicts_left : (x x' y : Job) → SameKeys x x' → conflicts x' y ≡ conflicts x y
conflicts_left x x' y s = rw (s.same_id, s.same_kind, s.same_project, s.same_key)

pub conflicts_right : (x y y' : Job) → SameKeys y y' → conflicts x y' ≡ conflicts x y
conflicts_right x y y' s = rw (s.same_id, s.same_kind, s.same_project, s.same_key)

clashes_left : (x x' y : JobAttempt) → SameAttempt x x' → clashes x' y ≡ clashes x y
clashes_left x x' y s = rw (s.same_id, s.same_job, s.same_no)

clashes_right : (x y y' : JobAttempt) → SameAttempt y y' → clashes x y' ≡ clashes x y
clashes_right x y y' s = rw (s.same_id, s.same_job, s.same_no)

has_id-SameKeys : (i : ℕ) (x y : Job) → SameKeys x y → has_id i y ≡ has_id i x
has_id-SameKeys i x y s = rw s.same_id

module _ (db : Db) (v : IsValid db) (p : JobAttempt → Bool) (f : JobAttempt → JobAttempt)
    (fs : (x : JobAttempt) → SameAttempt x (f x)) (q : Job → Bool) (g : Job → Job)
    (gs : (x : Job) → SameKeys x (g x)) where
  abbrev written : List EventLog → Db
  written events = record {
    jobs = update_where q g db.jobs;
    attempts = update_where p f db.attempts;
    events = events;
  }

  known_after :
      (a : JobAttempt)
      → IsKnownIn db.jobs a
      → IsKnownIn (update_where q g db.jobs) (if p a then f a else a)
  known_after a k = elim (Bool-cases (p a)) [
    | inl hit ↦
        rw
          (
            hit,
            (fs a).same_job,
            count-update (has_id a.job_id) q g db.jobs
                (λ x. has_id-SameKeys a.job_id x (g x) (gs x)),
          )
          k
    | inr miss ↦
        rw
          (
            miss,
            count-update (has_id a.job_id) q g db.jobs
                (λ x. has_id-SameKeys a.job_id x (g x) (gs x)),
          )
          k
  ]

  -- An update of both tables keeps the invariant if the leases agree afterwards.
  pub update-IsValid :
      (events : List EventLog)
      → All (LeasedIn (update_where p f db.attempts)) (update_where q g db.jobs)
      → IsValid (written events)
  update-IsValid events leases = record {
    leases = leases;
    jobs_distinct =
        Distinct-update conflicts q g db.jobs (λ x y. conflicts_left x (g x) y (gs x))
          (λ x y. conflicts_right x y (g y) (gs y)) v.jobs_distinct;
    attempts_distinct =
        Distinct-update clashes p f db.attempts (λ x y. clashes_left x (f x) y (fs x))
          (λ x y. clashes_right x y (f y) (fs y)) v.attempts_distinct;
    attempts_known =
        All-update (IsKnownIn db.jobs) (IsKnownIn (update_where q g db.jobs)) p f db.attempts
          known_after v.attempts_known;
  }

abbrev close-SameAttempt :
    (now : ℕ) (o : Outcome) (r : Option ℕ) (e : Option ErrorRecord) (x : JobAttempt)
    → SameAttempt x (close now o r e x)
close-SameAttempt now o r e x = record { same_id = refl; same_job = refl; same_no = refl }

freed_with : (y : Job) (n : ℕ) → IsFreed y → n ≡ 0 → IsLeased y n
freed_with y n s z = ground arith

freed_lease :
    (attempts : List JobAttempt) (x y : Job)
    → SameKeys x y
    → IsFreed y
    → open_count x.id attempts ≡ 0
    → LeasedIn attempts y
freed_lease attempts x y s f z =
    freed_with y (open_count y.id attempts) f (ap (λ i. open_count i attempts) s.same_id ∙ z)

module _ (db : Db) (v : IsValid db) (now : ℕ) (o : Outcome) (r : Option ℕ) (e : Option ErrorRecord)
    (g : Job → Job) (gs : (x : Job) → SameKeys x (g x)) (gf : (x : Job) → IsFreed (g x)) where
  leased_after_release :
      (accepts : JobStatus → Bool) (job_id attempt_id worker_id t : ℕ) (x : Job)
      → count_where (is_open_attempt job_id attempt_id) db.attempts ≡ 1
      → LeasedIn db.attempts x
        × (has_id job_id x ≡ true → holds_lease accepts job_id worker_id t x ≡ true)
      → LeasedIn
          (update_where (is_open_attempt job_id attempt_id) (close now o r e) db.attempts)
          (if holds_lease accepts job_id worker_id t x then g x else x)
  leased_after_release accepts job_id attempt_id worker_id t x one_open (l, only) =
      elim (Bool-cases (has_id job_id x)) [
        | inl hit ↦ rw (only hit) (
            freed_lease
              (update_where (is_open_attempt job_id attempt_id) (close now o r e) db.attempts) x
              (g x) (gs x) (gf x)
              (ground
                (arith, l, open_count-close_by_id now o r e x.id job_id attempt_id db.attempts)))
        | inr miss ↦
            rw miss (
              ground
                (arith, l, open_count-close_by_id now o r e x.id job_id attempt_id db.attempts))
      ]

  -- The lease-scoped methods: the attempt is closed and the job, whose lease was checked, is freed.
  pub release-IsValid :
      (accepts : JobStatus → Bool) (job_id attempt_id worker_id t : ℕ) (events : List EventLog)
      → count_where (is_open_attempt job_id attempt_id) db.attempts ≡ 1
      → count_where (holds_lease accepts job_id worker_id t) db.jobs ≡ 1
      → IsValid (record {
        jobs = update_where (holds_lease accepts job_id worker_id t) g db.jobs;
        attempts = update_where (is_open_attempt job_id attempt_id) (close now o r e) db.attempts;
        events = events;
      })
  release-IsValid accepts job_id attempt_id worker_id t events one_open one_held =
      update-IsValid db v (is_open_attempt job_id attempt_id) (close now o r e)
        (close-SameAttempt now o r e) (holds_lease accepts job_id worker_id t) g gs events
        (All-update
          (λ x.
            LeasedIn db.attempts x
            × (has_id job_id x ≡ true → holds_lease accepts job_id worker_id t x ≡ true))
          (LeasedIn
            (update_where (is_open_attempt job_id attempt_id) (close now o r e) db.attempts))
          (holds_lease accepts job_id worker_id t) g db.jobs
          (λ x h. leased_after_release accepts job_id attempt_id worker_id t x one_open h)
          (All-zip (LeasedIn db.attempts)
            (λ x. has_id job_id x ≡ true → holds_lease accepts job_id worker_id t x ≡ true) db.jobs
            v.leases (only_row_passes job_id _ db.jobs v.jobs_distinct one_held)))

  leased_after_recovery :
      (job_id : ℕ) (x : Job)
      → LeasedIn db.attempts x
      → LeasedIn
          (update_where
            (is_attempt (current_attempt job_id db.attempts))
            (close now o r e)
            db.attempts)
          (if has_id job_id x then g x else x)
  leased_after_recovery job_id x l = elim (Bool-cases (has_id job_id x)) [
    | inl hit ↦ rw hit (
        freed_lease
          (update_where (is_attempt (current_attempt job_id db.attempts)) (close now o r e)
            db.attempts)
          x (g x) (gs x) (gf x)
          (ground (
            arith,
            l,
            Bool-cases (is_held x.status),
            open_count-close_current now o r e x.id job_id db.attempts v.attempts_distinct,
          )))
    | inr miss ↦ rw miss (
        ground (
          arith,
          l,
          open_count-close_current now o r e x.id job_id db.attempts v.attempts_distinct,
        ))
  ]

  -- Recovery: the current attempt is closed and the job freed, whatever its status.
  pub recovery-IsValid :
      (job_id : ℕ) (events : List EventLog)
      → IsValid (record {
        jobs = update_where (has_id job_id) g db.jobs;
        attempts =
            update_where
              (is_attempt (current_attempt job_id db.attempts))
              (close now o r e)
              db.attempts;
        events = events;
      })
  recovery-IsValid job_id events =
      update-IsValid db v (is_attempt (current_attempt job_id db.attempts)) (close now o r e)
        (close-SameAttempt now o r e) (has_id job_id) g gs events
        (All-update (LeasedIn db.attempts)
          (LeasedIn (
            update_where (is_attempt (current_attempt job_id db.attempts)) (close now o r e)
              db.attempts))
          (has_id job_id) g db.jobs (leased_after_recovery job_id) v.leases)
