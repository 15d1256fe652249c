-- ===== src/Jobs/Valid/Inserts.antt =====
-- The writes that end no attempt, and the two insertions, keep the invariant.
use truyenaudio_studio.Prelude.{
  ℕ, ap, ◌∙◌, ◌+◌, ◌≡◌, refl, inl, inr, Bool, true, false, none, some, List, [], ◌∷◌, ◌++◌, arith,
  ◌==◌, if◌then◌else◌, Bool-cases, ==_iff, count_where, update_where, All, All-map, All-zip,
  All-update, All-append, Distinct-update, Distinct-append, count-update, count-append,
  update_nothing, count_le, subst,
}
use truyenaudio_studio.Jobs.Schema.{Job, JobAttempt, EventLog, Db, is_held, is_open_of}
use truyenaudio_studio.Jobs.Rows.{conflicts, has_id, clashes, find_job}
use truyenaudio_studio.Jobs.Valid.{IsValid, IsLeased, LeasedIn, IsKnownIn, open_count}
use truyenaudio_studio.Jobs.Valid.Find.{find_job_unique, find_job-count}
use truyenaudio_studio.Jobs.Valid.Writes.{
  SameKeys, SameAttempt, update-IsValid, conflicts_left, conflicts_right,
}

same_leased :
    (attempts attempts' : List JobAttempt) (x y : Job)
    → y.id ≡ x.id
    → ((k : ℕ) → open_count k attempts' ≡ open_count k attempts)
    → IsLeased y (open_count x.id attempts)
    → LeasedIn attempts' y
same_leased attempts attempts' x y e same l =
    ground (arith, same y.id, ap (λ i. open_count i attempts) e)

module _ (db : Db) (v : IsValid db) (p : JobAttempt → Bool) (f : JobAttempt → JobAttempt)
    (fs : (x : JobAttempt) → SameAttempt x (f x))
    (open_same : (k : ℕ) (x : JobAttempt) → is_open_of k (f x) ≡ is_open_of k x) (q : Job → Bool)
    (g : Job → Job) (gs : (x : Job) → SameKeys x (g x))
    (leased : (x : Job) (n : ℕ) → q x ≡ true → IsLeased x n → IsLeased (g x) n) where
  leased_after :
      (x : Job)
      → LeasedIn db.attempts x
      → LeasedIn (update_where p f db.attempts) (if q x then g x else x)
  leased_after x l = elim (Bool-cases (q x)) [
    | inl hit ↦ rw hit (
        same_leased db.attempts (update_where p f db.attempts) x (g x) (gs x).same_id
          (λ k. count-update (is_open_of k) p f db.attempts (open_same k))
          (leased x (open_count x.id db.attempts) hit l))
    | inr miss ↦ rw miss (
        same_leased db.attempts (update_where p f db.attempts) x x refl
          (λ k. count-update (is_open_of k) p f db.attempts (open_same k)) l)
  ]

  -- Writes that leave open attempts open and leases as they are.
  pub touch-IsValid :
      (events : List EventLog)
      → IsValid (record {
        jobs = update_where q g db.jobs;
        attempts = update_where p f db.attempts;
        events = events;
      })
  touch-IsValid events = update-IsValid db v p f fs q g gs events (
      All-update (LeasedIn db.attempts) (LeasedIn (update_where p f db.attempts)) q g db.jobs
        leased_after v.leases)

module _ (db : Db) (v : IsValid db) (q : Job → Bool) (g : Job → Job)
    (gs : (x : Job) → SameKeys x (g x))
    (leased : (x : Job) (n : ℕ) → q x ≡ true → IsLeased x n → IsLeased (g x) n) where
  -- Such writes on the jobs alone.
  pub touch_jobs-IsValid :
      (events : List EventLog)
      → IsValid
          (record { jobs = update_where q g db.jobs; attempts = db.attempts; events = events })
  touch_jobs-IsValid events =
      subst
        (λ (attempts : List JobAttempt).
          IsValid
            (record { jobs = update_where q g db.jobs; attempts = attempts; events = events }))
        (update_nothing (λ (a : JobAttempt). a) db.attempts)
        (touch-IsValid db v (λ a. false) (λ a. a)
          (λ x. record { same_id = refl; same_job = refl; same_no = refl }) (λ k x. refl) q g gs
          leased events)

module _ (db : Db) (v : IsValid db) (p : JobAttempt → Bool) (f : JobAttempt → JobAttempt)
    (fs : (x : JobAttempt) → SameAttempt x (f x))
    (open_same : (k : ℕ) (x : JobAttempt) → is_open_of k (f x) ≡ is_open_of k x) where
  -- Such writes on the attempts alone.
  pub touch_attempts-IsValid :
      IsValid
        (record { jobs = db.jobs; attempts = update_where p f db.attempts; events = db.events })
  touch_attempts-IsValid =
      subst
        (λ (jobs : List Job).
          IsValid
            (record { jobs = jobs; attempts = update_where p f db.attempts; events = db.events }))
        (update_nothing (λ (j : Job). j) db.jobs)
        (touch-IsValid db v p f fs open_same (λ j. false) (λ j. j)
          (λ x. record { same_id = refl; same_kind = refl; same_project = refl; same_key = refl })
          (λ x n h l. l) db.events)

open_count-append :
    (k : ℕ) (a : JobAttempt) (xs : List JobAttempt)
    → a.finished_at ≡ none
    → open_count k (xs ++ a ∷ []) ≡ open_count k xs + (if a.job_id == k then 1 else 0)
unfolding count_where
open_count-append k a xs e = ground (arith, count-append (is_open_of k) xs (a ∷ []))

clashes_sym : (a b : JobAttempt) → clashes a b ≡ clashes b a
clashes_sym a b = ground arith

known_more :
    (q : Job → Bool) (g : Job → Job) (gs : (x : Job) → SameKeys x (g x)) (jobs : List Job)
    → (a : JobAttempt) → IsKnownIn jobs a
    → IsKnownIn (update_where q g jobs) a
known_more q g gs jobs a k =
    rw (count-update (has_id a.job_id) q g jobs (λ x. ap (λ (i : ℕ). i == a.job_id) (gs x).same_id))
      k

IsLeased-at : (y : Job) (n : ℕ) → IsLeased y 1 → n ≡ 1 → IsLeased y n
IsLeased-at y n l e = rw e l

free_count : (x : Job) (n : ℕ) → IsLeased x n → is_held x.status ≡ false → n ≡ 0
free_count x n l h = (l.free h).0

module _ (db : Db) (v : IsValid db) (job : Job) (found : find_job job.id db.jobs ≡ some job)
    (free : is_held job.status ≡ false) (g : Job → Job) (gs : (x : Job) → SameKeys x (g x))
    (taken : (x : Job) → IsLeased (g x) 1) (a : JobAttempt) (a_job : a.job_id ≡ job.id)
    (a_open : a.finished_at ≡ none) (fresh : count_where (clashes a) db.attempts ≡ 0) where
  count_after_claim :
      (x : Job)
      → LeasedIn db.attempts x
      → has_id job.id x ≡ true
      → x ≡ job
      → open_count (g x).id (db.attempts ++ a ∷ []) ≡ 1
  count_after_claim x l hit e =
      ap (λ i. open_count i (db.attempts ++ a ∷ [])) (gs x).same_id
      ∙ (open_count-append x.id a db.attempts a_open
          ∙ ground (
            arith,
            free_count x (open_count x.id db.attempts) l,
            ap (λ (j : Job). is_held j.status) e,
          ))

  leased_after_claim :
      (x : Job)
      → LeasedIn db.attempts x × (has_id job.id x ≡ true → x ≡ job)
      → LeasedIn (db.attempts ++ a ∷ []) (if has_id job.id x then g x else x)
  leased_after_claim x (l, only) = elim (Bool-cases (has_id job.id x)) [
    | inl hit ↦ rw hit (
        IsLeased-at (g x) (open_count (g x).id (db.attempts ++ a ∷ [])) (taken x)
          (count_after_claim x l hit (only hit)))
    | inr miss ↦ rw miss (ground (arith, l, open_count-append x.id a db.attempts a_open))
  ]

  -- A claim: the job, which nobody held, is taken, and an open attempt of it is added.
  pub claim-IsValid : IsValid (record {
    jobs = update_where (has_id job.id) g db.jobs;
    attempts = db.attempts ++ a ∷ [];
    events = db.events;
  })
  claim-IsValid = record {
    leases =
        All-update (λ x. LeasedIn db.attempts x × (has_id job.id x ≡ true → x ≡ job))
          (LeasedIn (db.attempts ++ a ∷ [])) (has_id job.id) g db.jobs leased_after_claim
          (All-zip (LeasedIn db.attempts) (λ x. has_id job.id x ≡ true → x ≡ job) db.jobs v.leases
            (find_job_unique job.id db.jobs v.jobs_distinct found));
    jobs_distinct =
        Distinct-update conflicts (has_id job.id) g db.jobs (λ x y. conflicts_left x (g x) y (gs x))
          (λ x y. conflicts_right x y (g y) (gs y)) v.jobs_distinct;
    attempts_distinct =
        Distinct-append clashes db.attempts a (λ x. clashes_sym x a) fresh v.attempts_distinct;
    attempts_known =
        All-append (IsKnownIn (update_where (has_id job.id) g db.jobs)) db.attempts a
          (All-map (IsKnownIn db.jobs) (IsKnownIn (update_where (has_id job.id) g db.jobs))
            db.attempts (known_more (has_id job.id) g gs db.jobs) v.attempts_known)
          (known_more (has_id job.id) g gs db.jobs a
            (rw a_job (find_job-count job.id db.jobs found)));
  }

no_attempts :
    (k : ℕ) (jobs : List Job) (xs : List JobAttempt)
    → All (IsKnownIn jobs) xs
    → count_where (has_id k) jobs ≡ 0
    → open_count k xs ≡ 0
unfolding count_where
no_attempts k jobs [] known absent = refl
no_attempts k jobs (x ∷ xs) known absent = elim (Bool-cases (x.job_id == k)) [
  | inl hit ↦
      absurd
        (ground (arith, known.0, ap (λ i. count_where (has_id i) jobs) ((==_iff x.job_id k).0 hit)))
  | inr miss ↦ ground (arith, no_attempts k jobs xs known.1 absent)
]

conflicts_sym : (a b : Job) → conflicts a b ≡ conflicts b a
conflicts_sym a b = ground arith

module _ (db : Db) (v : IsValid db) (job : Job) (fresh : count_where (conflicts job) db.jobs ≡ 0)
    (free : is_held job.status ≡ false) (no_owner : job.lease_owner ≡ none)
    (no_lease : job.lease_expires_at ≡ none) where
  id_fresh : count_where (has_id job.id) db.jobs ≡ 0
  id_fresh = ground (arith, count_le (has_id job.id) (conflicts job) db.jobs (λ x h. ground arith))

  -- A new job that nobody holds, with a new identifier and a new key.
  pub insert-IsValid : IsValid (record db { jobs = db.jobs ++ job ∷ [] })
  insert-IsValid = record {
    leases =
        All-append (LeasedIn db.attempts) db.jobs job v.leases
          (ground (arith, no_attempts job.id db.jobs db.attempts v.attempts_known id_fresh));
    jobs_distinct =
        Distinct-append conflicts db.jobs job (λ x. conflicts_sym x job) fresh v.jobs_distinct;
    attempts_distinct = v.attempts_distinct;
    attempts_known =
        All-map (IsKnownIn db.jobs) (IsKnownIn (db.jobs ++ job ∷ [])) db.attempts
          (λ a k. ground (arith, count-append (has_id a.job_id) db.jobs (job ∷ [])))
          v.attempts_known;
  }
