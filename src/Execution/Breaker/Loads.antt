-- ===== src/Execution/Breaker/Loads.antt =====
-- What `_load` finds after each method of the breaker.
use truyenaudio_studio.Prelude.{
  ℕ, ◌≡◌, ◌≢◌, refl, Option, none, some, [], ◌∷◌, ◌++◌, arith, find_where, update_where,
  Option-cases, inl, inr,
}
use truyenaudio_studio.Execution.Breaker.{
  BreakerState, CircuitBreaker, Reading, Table, has_scope, load, ensure_row, fresh_row,
  record_failure, failed_row, record_success, succeeded_row,
}

pub find-update :
    (key : ℕ) (f : BreakerState → BreakerState) (rows : Table) {r : BreakerState}
    → ((x : BreakerState) → (f x).scope_key ≡ x.scope_key)
    → find_where (has_scope key) rows ≡ some r
    → find_where (has_scope key) (update_where (has_scope key) f rows) ≡ some (f r)
unfolding find_where update_where
find-update key f [] same h = cc
find-update key f (x ∷ xs) {r} same h = ground (arith, h, same x, find-update key f xs {r = r} same)

find-append :
    (key : ℕ) (rows : Table) (y : BreakerState)
    → find_where (has_scope key) rows ≡ none
    → y.scope_key ≡ key
    → find_where (has_scope key) (rows ++ y ∷ []) ≡ some y
unfolding find_where
find-append key [] y h e = ground (arith, e)
find-append key (x ∷ xs) y h e = ground (arith, h, e, find-append key xs y)

-- A write on another scope passes a row over.
find-other :
    (key other : ℕ) (f : BreakerState → BreakerState) (rows : Table)
    → ((x : BreakerState) → (f x).scope_key ≡ x.scope_key)
    → other ≢ key
    → find_where (has_scope other) (update_where (has_scope key) f rows)
      ≡ find_where (has_scope other) rows
unfolding find_where update_where
find-other key other f [] same apart = refl
find-other key other f (x ∷ xs) same apart =
    ground (arith, apart, same x, find-other key other f xs same apart)

-- The row that a recording method starts from.
abbrev pub row_or_fresh : CircuitBreaker → ℕ → ℕ → Option BreakerState → BreakerState
row_or_fresh b new_id utc_now none = fresh_row b new_id utc_now
row_or_fresh b new_id utc_now (some r) = r

module _ (b : CircuitBreaker) (new_id : ℕ) (now : Reading) (rows : Table) where
  ensured :
      load b (ensure_row b new_id now.utc_now rows)
      ≡ some (row_or_fresh b new_id now.utc_now (load b rows))
  unfolding ensure_row load
  ensured = elim (Option-cases (load b rows)) [
    | inl missing ↦
        ground (arith, missing, find-append b.scope_key rows (fresh_row b new_id now.utc_now))
    | inr (r, found) ↦ ground (arith, found)
  ]

  pub load-record_failure :
      load b (record_failure b new_id now rows)
      ≡ some (failed_row b now (row_or_fresh b new_id now.utc_now (load b rows)))
  unfolding record_failure load
  load-record_failure =
      find-update b.scope_key (failed_row b now) (ensure_row b new_id now.utc_now rows) (λ x. refl)
        ensured

  pub load-record_success :
      load b (record_success b new_id now rows)
      ≡ some (succeeded_row now.utc_now (row_or_fresh b new_id now.utc_now (load b rows)))
  unfolding record_success load
  load-record_success =
      find-update b.scope_key (succeeded_row now.utc_now) (ensure_row b new_id now.utc_now rows)
        (λ x. refl) ensured
