-- ===== src/Jobs/Trace/Frame.antt =====
-- What the writes do to the row of one identifier.
use truyenaudio_studio.Prelude.{
  ℕ, ◌≡◌, Bool, some, List, [], ◌∷◌, ◌++◌, arith, if◌then◌else◌, update_where, find_where,
}
use truyenaudio_studio.Jobs.Schema.{Job}
use truyenaudio_studio.Jobs.Rows.{find_job}

-- The row is written if it passes the test.
pub find_job-update :
    (i : ℕ) (q : Job → Bool) (g : Job → Job) (xs : List Job) {r : Job}
    → ((x : Job) → (g x).id ≡ x.id)
    → find_job i xs ≡ some r
    → find_job i (update_where q g xs) ≡ some (if q r then g r else r)
unfolding find_job find_where update_where
find_job-update i q g [] same h = cc
find_job-update i q g (x ∷ xs) {r} same h =
    ground (arith, same x, find_job-update i q g xs {r = r} same)

pub find_job-append :
    (i : ℕ) (xs : List Job) (y : Job) {r : Job}
    → find_job i xs ≡ some r
    → find_job i (xs ++ y ∷ []) ≡ some r
unfolding find_job find_where
find_job-append i [] y h = cc
find_job-append i (x ∷ xs) y {r} h = ground (arith, find_job-append i xs y {r = r})
