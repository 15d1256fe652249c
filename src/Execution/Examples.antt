-- ===== src/Execution/Examples.antt =====
-- The theorems on the breaker at concrete inputs.
use truyenaudio_studio.Prelude.{
  ℕ, ◌+◌, ◌≤◌, ◌≡◌, refl, none, some, String, [], ◌∷◌, arith, find_where, leb, if◌then◌else◌,
}
use truyenaudio_studio.Execution.Breaker.{
  BreakerState, CircuitBreaker, Reading, Call, success, closed, opened, load, record_failure,
  with_breaker, rejected,
}
use truyenaudio_studio.Execution.Breaker.Cycle.{
  record_failures, allowed_count, SettledBy, failures-open_at_threshold, open-one_probe,
  failure-rejects_cooldown, probe-settles,
}

abbrev gateway : CircuitBreaker
gateway = record { scope_key = 4; threshold = 2; cooldown_seconds = 60 }

abbrev calm_row : BreakerState
calm_row = record {
  id = 1;
  scope_key = 4;
  state = closed;
  consecutive_failures = 1;
  opened_at = none;
  cooldown_until = none;
  updated_at = 100;
}

abbrev tripped_row : BreakerState
tripped_row = record {
  id = 1;
  scope_key = 4;
  state = opened;
  consecutive_failures = 2;
  opened_at = some 200;
  cooldown_until = some 60000200;
  updated_at = 200;
}

abbrev at_200 : Reading
at_200 = record { clock = 200; utc_now = 200 }

abbrev at_300 : Reading
at_300 = record { clock = 300; utc_now = 300 }

abbrev much_later : Reading
much_later = record { clock = 70000000; utc_now = 70000000 }

-- A function that counts its calls and answers.
abbrev counted : ℕ → Call String ℕ × ℕ
counted n = (success 8, n + 1)

failures-open_at_threshold_example :
    (r : BreakerState) × (load gateway (record_failures gateway ((2, at_200) ∷ []) (calm_row ∷ []))
      ≡ some r)
    × (r.consecutive_failures ≡ 2)
    × (r.state ≡ (if leb 2 r.consecutive_failures then opened else closed))
unfolding load find_where
failures-open_at_threshold_example =
    failures-open_at_threshold gateway ((2, at_200) ∷ []) (calm_row ∷ []) calm_row refl refl

open-one_probe_example :
    allowed_count gateway (at_300 ∷ much_later ∷ much_later ∷ []) (tripped_row ∷ []) ≤ 1
unfolding load find_where
open-one_probe_example =
    open-one_probe gateway (at_300 ∷ much_later ∷ much_later ∷ []) (tripped_row ∷ []) tripped_row
      refl refl

failure-rejects_cooldown_example :
    with_breaker gateway counted 3 at_300 at_300 0 (record_failure gateway 2 at_200 (calm_row ∷ []))
    ≡ (rejected, 0, record_failure gateway 2 at_200 (calm_row ∷ []))
unfolding load find_where
failure-rejects_cooldown_example =
    failure-rejects_cooldown gateway counted 2 3 at_200 at_300 at_300 0 (calm_row ∷ []) calm_row
      refl refl (omega arith)

probe-settles_example :
    ((with_breaker gateway counted 3 much_later much_later 0 (tripped_row ∷ [])).1 ≡ 1)
    × SettledBy gateway {X = String}
        (success 8)
        much_later
        (with_breaker gateway counted 3 much_later much_later 0 (tripped_row ∷ [])).0
        (load gateway (with_breaker gateway counted 3 much_later much_later 0 (tripped_row ∷ [])).2)
unfolding load find_where
probe-settles_example =
    probe-settles gateway counted 3 much_later much_later 0 (tripped_row ∷ []) tripped_row refl refl
      refl
