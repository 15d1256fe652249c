-- ===== src/Execution/Breaker.antt =====
-- The persisted circuit breaker of backend/app/modules/execution/breaker.py. The table breaker_states is
-- the list of its rows. A method reads two clocks: the breaker's own and `utc_now` for updated_at; a
-- Reading holds both. Instants are numbers of microseconds, and the rows hold aware instants.
pub mod Loads
pub mod Cycle
use truyenaudio_studio.Prelude.{
  ℕ, ◌+◌, ◌*◌, Bool, true, false, ◌||◌, Option, none, some, List, [], ◌∷◌, ◌++◌, ltb, leb, ◌==◌,
  if◌then◌else◌, find_where, update_where,
}

pub data State : Type 0 where
  closed opened half_open : State

pub record BreakerState : Type 0 where
  pub id : ℕ
  pub scope_key : ℕ
  pub state : State
  pub consecutive_failures : ℕ
  pub opened_at : Option ℕ
  pub cooldown_until : Option ℕ
  pub updated_at : ℕ

abbrev pub Table : Type 0
Table = List BreakerState

pub record CircuitBreaker : Type 0 where
  pub scope_key : ℕ
  pub threshold : ℕ
  pub cooldown_seconds : ℕ

pub record Reading : Type 0 where
  pub clock : ℕ
  pub utc_now : ℕ

abbrev pub is_half_open : State → Bool
is_half_open half_open = true
is_half_open _ = false

-- The cooldown is set and has not passed.
abbrev pub is_cooling : ℕ → Option ℕ → Bool
is_cooling now none = false
is_cooling now (some until) = ltb now until

abbrev pub has_scope : ℕ → BreakerState → Bool
has_scope key r = r.scope_key == key

-- `_load`; scope_key is unique.
unfoldable pub load : CircuitBreaker → Table → Option BreakerState
load b rows = find_where (has_scope b.scope_key) rows

-- The row of `_ensure_row` when there was none.
abbrev pub fresh_row : CircuitBreaker → ℕ → ℕ → BreakerState
fresh_row b new_id utc_now = record {
  id = new_id;
  scope_key = b.scope_key;
  state = closed;
  consecutive_failures = 0;
  opened_at = none;
  cooldown_until = none;
  updated_at = utc_now;
}

abbrev pub add_missing : Option BreakerState → BreakerState → Table → Table
add_missing none r rows = rows ++ r ∷ []
add_missing (some found) r rows = rows

unfoldable pub ensure_row : CircuitBreaker → ℕ → ℕ → Table → Table
unfolding load
ensure_row b new_id utc_now rows = add_missing (load b rows) (fresh_row b new_id utc_now) rows

-- A write to the loaded row.
abbrev pub write_row : CircuitBreaker → (BreakerState → BreakerState) → Table → Table
write_row b f rows = update_where (has_scope b.scope_key) f rows

abbrev pub to_half_open : ℕ → BreakerState → BreakerState
to_half_open utc_now r = record r { state = half_open; updated_at = utc_now }

-- Whether the dispatch may go on (no BreakerOpen is raised), and the table.
unfoldable pub allow_row : CircuitBreaker → Reading → Option BreakerState → Table → Bool × Table
allow_row b now none rows = (true, rows)
allow_row b now (some r) rows = elim r.state [
  | closed ↦ (true, rows)
  | opened ↦ (
    if is_cooling now.clock r.cooldown_until then false else true,
    if is_cooling now.clock r.cooldown_until
        then rows
        else write_row b (to_half_open now.utc_now) rows,
  )
  | half_open ↦ (false, rows)
]

unfoldable pub allow : CircuitBreaker → Reading → Table → Bool × Table
unfolding load allow_row
allow b now rows = allow_row b now (load b rows) rows

-- The failure count is at the threshold, or the probe has failed.
abbrev pub trips : CircuitBreaker → BreakerState → Bool
trips b r = is_half_open r.state || leb b.threshold (r.consecutive_failures + 1)

abbrev pub failed_row : CircuitBreaker → Reading → BreakerState → BreakerState
failed_row b now r = record r {
  consecutive_failures = r.consecutive_failures + 1;
  state = if trips b r then opened else r.state;
  opened_at = if trips b r then some now.clock else r.opened_at;
  cooldown_until =
      if trips b r then some (now.clock + b.cooldown_seconds * 1000000) else r.cooldown_until;
  updated_at = now.utc_now;
}

unfoldable pub record_failure : CircuitBreaker → ℕ → Reading → Table → Table
unfolding ensure_row
record_failure b new_id now rows =
    write_row b (failed_row b now) (ensure_row b new_id now.utc_now rows)

abbrev pub succeeded_row : ℕ → BreakerState → BreakerState
succeeded_row utc_now r = record r {
  consecutive_failures = 0;
  state = closed;
  opened_at = none;
  cooldown_until = none;
  updated_at = utc_now;
}

unfoldable pub record_success : CircuitBreaker → ℕ → Reading → Table → Table
unfolding ensure_row
record_success b new_id now rows =
    write_row b (succeeded_row now.utc_now) (ensure_row b new_id now.utc_now rows)

-- `snapshot`: state and failure count, then the instants of a stored row.
pub data Snapshot : Type 0 where
  no_row : State → ℕ → Snapshot
  of_row : State → ℕ → Option ℕ → Option ℕ → Snapshot

abbrev pub snapshot_row : Option BreakerState → Snapshot
snapshot_row none = no_row closed 0
snapshot_row (some r) = of_row r.state r.consecutive_failures r.opened_at r.cooldown_until

unfoldable pub snapshot : CircuitBreaker → Table → Snapshot
unfolding load
snapshot b rows = snapshot_row (load b rows)

-- What `with_breaker` gives: BreakerOpen, the exception of `fn`, or its result.
pub data Outcome (X A : Type 0) : Type 0 where
  rejected : Outcome X A
  raised : X → Outcome X A
  returned : A → Outcome X A

-- The end of a call of `fn`.
pub data Call (X A : Type 0) : Type 0 where
  failure : X → Call X A
  success : A → Call X A

module _ {W X A : Type 0} where
  unfoldable pub record_outcome :
      CircuitBreaker → ℕ → Reading → Call X A × W → Table → Outcome X A × W × Table
  unfolding record_failure record_success
  record_outcome b new_id after (failure x, w) rows =
      (raised x, w, record_failure b new_id after rows)
  record_outcome b new_id after (success a, w) rows =
      (returned a, w, record_success b new_id after rows)

  -- `fn` acts on the world outside the table. The clocks are read before and after it.
  unfoldable pub with_breaker :
      CircuitBreaker
      → (W → Call X A × W)
      → ℕ
      → Reading
      → Reading
      → W
      → Table
      → Outcome X A × W × Table
  unfolding allow record_outcome
  with_breaker b fn new_id before after w rows =
      let (allowed, rows') = allow b before rows in
      let called = record_outcome b new_id after (fn w) rows' in
      (
        if allowed then called.0 else rejected,
        if allowed then called.1 else w,
        if allowed then called.2 else rows',
      )
