-- ===== src/Execution/Breaker/Cycle.antt =====
-- The cycle of the breaker: it opens at the threshold, rejects for the cooldown, lets one probe
-- through, and closes or opens again by its outcome.
use truyenaudio_studio.Prelude.{
  ℕ, ◌+◌, ◌*◌, ◌<◌, ◌≤◌, ◌≡◌, refl, subst, sym, true, false, Option, some, List, [], ◌∷◌, arith,
  leb, if◌then◌else◌,
}
use truyenaudio_studio.Prelude.Lists.{length}
use truyenaudio_studio.Execution.Breaker.{
  BreakerState, CircuitBreaker, Reading, Table, closed, opened, half_open, load, allow,
  to_half_open, is_cooling, record_failure, failed_row, succeeded_row, trips, write_row, Call,
  failure, success, Outcome, with_breaker, record_outcome, rejected, raised, returned,
}
use truyenaudio_studio.Execution.Breaker.Loads.{
  find-update, load-record_failure, load-record_success,
}

-- Failures one after the other, each with its fresh identifier and clocks.
unfoldable pub record_failures : CircuitBreaker → List (ℕ × Reading) → Table → Table
record_failures b [] rows = rows
record_failures b ((new_id, now) ∷ later) rows =
    record_failures b later (record_failure b new_id now rows)

-- The answers of `allow` to a sequence of calls, as the number of dispatches that may go on.
unfoldable pub allowed_count : CircuitBreaker → List Reading → Table → ℕ
allowed_count b [] rows = 0
allowed_count b (now ∷ later) rows =
    let out = allow b now rows in
    let rest = allowed_count b later out.1 in (if out.0 then 1 else 0) + rest

module _ (b : CircuitBreaker) where
  -- The row and the outcome after a probe that ended with `call`.
  abbrev pub SettledBy :
      {X A : Type 0} → Call X A → Reading → Outcome X A → Option BreakerState → Type 0
  SettledBy (success a) after out row =
      (out ≡ returned a)
      × ((r : BreakerState) × (row ≡ some r) × (r.state ≡ closed) × (r.consecutive_failures ≡ 0))
  SettledBy (failure x) after out row =
      (out ≡ raised x)
      × ((r : BreakerState) × (row ≡ some r)
          × (r.state ≡ opened)
          × (r.cooldown_until ≡ some (after.clock + b.cooldown_seconds * 1000000)))

  -- From a row that is open when its count of failures has reached the threshold and closed otherwise,
  -- any number of recorded failures leaves a row that counts them all and is again open when the count has
  -- reached the threshold and closed otherwise.
  pub failures-open_at_threshold :
      (failures : List (ℕ × Reading)) (rows : Table) (r : BreakerState)
      → load b rows ≡ some r
      → r.state ≡ (if leb b.threshold r.consecutive_failures then opened else closed)
      → (r' : BreakerState) × (load b (record_failures b failures rows) ≡ some r')
        × (r'.consecutive_failures ≡ r.consecutive_failures + length failures)
        × (r'.state ≡ (if leb b.threshold r'.consecutive_failures then opened else closed))
  unfolding record_failures
  failures-open_at_threshold [] rows r found counted = (r, found, omega arith, counted)
  failures-open_at_threshold ((new_id, now) ∷ later) rows r found counted =
      let next : load b (record_failure b new_id now rows) ≡ some (failed_row b now r) =
        ground (arith, found, load-record_failure b new_id now rows) in
      let (r', at, total, state) =
        failures-open_at_threshold later (record_failure b new_id now rows) (failed_row b now r)
          next (ground (arith, counted)) in
      (r', at, ground (arith, total), state)

  loaded :
      (utc_now : ℕ) (rows : Table) (r : BreakerState)
      → load b rows ≡ some r
      → load b (write_row b (to_half_open utc_now) rows) ≡ some (to_half_open utc_now r)
  unfolding load
  loaded utc_now rows r found =
      find-update b.scope_key (to_half_open utc_now) rows (λ x. refl) found

  -- A half-open breaker lets no dispatch through.
  half_open-none :
      (calls : List Reading) (rows : Table) (r : BreakerState)
      → load b rows ≡ some r
      → r.state ≡ half_open
      → allowed_count b calls rows ≡ 0
  unfolding allowed_count allow
  half_open-none [] rows r found half = refl
  half_open-none (now ∷ later) rows r found half =
      ground (arith, found, half, half_open-none later rows r)

  -- Once the breaker is open, `allow` lets at most one dispatch through, however many calls there are,
  -- until an outcome is recorded.
  pub open-one_probe :
      (calls : List Reading) (rows : Table) (r : BreakerState)
      → load b rows ≡ some r
      → r.state ≡ opened
      → allowed_count b calls rows ≤ 1
  unfolding allowed_count allow
  open-one_probe [] rows r found is_open = omega arith
  open-one_probe (now ∷ later) rows r found is_open =
      let woken : load b (write_row b (to_half_open now.utc_now) rows)
          ≡ some (to_half_open now.utc_now r) =
        loaded now.utc_now rows r found in
      ground (
        arith,
        found,
        is_open,
        open-one_probe later rows r,
        half_open-none later (write_row b (to_half_open now.utc_now) rows)
            (to_half_open now.utc_now r) woken refl,
      )

  allow-cooling :
      (now : Reading) (rows : Table) (r : BreakerState)
      → load b rows ≡ some r
      → r.state ≡ opened
      → is_cooling now.clock r.cooldown_until ≡ true
      → allow b now rows ≡ (false, rows)
  unfolding allow
  allow-cooling now rows r found is_open cooling = ground (arith, found, is_open, cooling)

  allow-cooled :
      (now : Reading) (rows : Table) (r : BreakerState)
      → load b rows ≡ some r
      → r.state ≡ opened
      → is_cooling now.clock r.cooldown_until ≡ false
      → allow b now rows ≡ (true, write_row b (to_half_open now.utc_now) rows)
  unfolding allow
  allow-cooled now rows r found is_open cooled = ground (arith, found, is_open, cooled)

  module _ {W X A : Type 0} (fn : W → Call X A × W) (new_id : ℕ) (before after : Reading) (w : W)
      (rows : Table) where
    with_breaker-refused :
        {rows' : Table}
        → allow b before rows ≡ (false, rows')
        → with_breaker b fn new_id before after w rows ≡ (rejected, w, rows')
    unfolding with_breaker
    with_breaker-refused refused = rw refused refl

    with_breaker-passed :
        {rows' : Table}
        → allow b before rows ≡ (true, rows')
        → with_breaker b fn new_id before after w rows ≡ record_outcome b new_id after (fn w) rows'
    unfolding with_breaker
    with_breaker-passed passed = rw passed refl

  outcome-settles :
      {W X A : Type 0} (new_id : ℕ) (after : Reading) (end : Call X A × W) (rows : Table)
      (r : BreakerState)
      → load b rows ≡ some r
      → r.state ≡ half_open
      → let out = record_outcome b new_id after end rows in
        (out.1 ≡ end.1) × SettledBy end.0 after out.0 (load b out.2)
  unfolding record_outcome
  outcome-settles new_id after (success a, w) rows r found half = (
    refl,
    (
      refl,
      (
        succeeded_row after.utc_now r,
        ground (arith, found, load-record_success b new_id after rows),
        refl,
        refl,
      ),
    ),
  )
  outcome-settles new_id after (failure x, w) rows r found half = (
    refl,
    (
      refl,
      (
        failed_row b after r,
        ground (arith, found, load-record_failure b new_id after rows),
        ground (arith, half),
        ground (arith, half),
      ),
    ),
  )

  -- A failure that trips the breaker makes every dispatch of the cooldown that follows be rejected: the
  -- function is not called, and neither the world nor the table changes.
  pub failure-rejects_cooldown :
      {W X A : Type 0} (fn : W → Call X A × W) (new_id other_id : ℕ) (now before after : Reading)
      (w : W) (rows : Table) (r : BreakerState)
      → load b rows ≡ some r
      → trips b r ≡ true
      → before.clock < now.clock + b.cooldown_seconds * 1000000
      → with_breaker b fn other_id before after w (record_failure b new_id now rows)
        ≡ (rejected, w, record_failure b new_id now rows)
  unfolding with_breaker allow
  failure-rejects_cooldown fn new_id other_id now before after w rows r found tripped soon =
      let at : load b (record_failure b new_id now rows) ≡ some (failed_row b now r) =
        ground (arith, found, load-record_failure b new_id now rows) in
      with_breaker-refused fn other_id before after w (record_failure b new_id now rows) (
        allow-cooling before (record_failure b new_id now rows) (failed_row b now r) at
          (ground (arith, tripped)) (ground (arith, tripped, soon)))

  -- The probe after the cooldown calls the function once and settles the breaker by its outcome: success
  -- closes it with no failures counted, failure opens it until a full cooldown after the failure.
  pub probe-settles :
      {W X A : Type 0} (fn : W → Call X A × W) (new_id : ℕ) (before after : Reading) (w : W)
      (rows : Table) (r : BreakerState)
      → load b rows ≡ some r
      → r.state ≡ opened
      → is_cooling before.clock r.cooldown_until ≡ false
      → let out = with_breaker b fn new_id before after w rows in
        (out.1 ≡ (fn w).1) × SettledBy (fn w).0 after out.0 (load b out.2)
  unfolding with_breaker allow
  probe-settles fn new_id before after w rows r found is_open cooled =
      let woken = loaded before.utc_now rows r found in
      subst (λ out. (out.1 ≡ (fn w).1) × SettledBy (fn w).0 after out.0 (load b out.2))
        (sym (
          with_breaker-passed fn new_id before after w rows
            (allow-cooled before rows r found is_open cooled)))
        (outcome-settles new_id after (fn w) (write_row b (to_half_open before.utc_now) rows)
          (to_half_open before.utc_now r) woken refl)
