-- ===== src/Jobs/Retry.antt =====
-- backend/app/modules/jobs/retry.py: which failures of an attempt are retried, and after how long.
pub mod Bounds
use text.Mathlib.Text.{◌==◌ as str_eq, starts_with}
use truyenaudio_studio.Prelude.{
  ℕ, ◌-◌, min, String, Bool, ◌||◌, ◌&&◌, not, Option, none, some, List, [], ◌∷◌, ltb, ◌==◌,
  if◌then◌else◌,
}
use truyenaudio_studio.Prelude.Int.{ℤ, pos, negsuc}
use truyenaudio_studio.Prelude.Lists.{get_elem?}

abbrev pub max_retryable_attempt : ℕ
max_retryable_attempt = 3

abbrev pub retry_delays_seconds : List ℕ
retry_delays_seconds = 2 ∷ 10 ∷ 30 ∷ []

abbrev pub max_retry_after_seconds : ℕ
max_retry_after_seconds = 600

pub data RetryDisposition : Type 0 where
  retry fail : RetryDisposition

pub record RetryDecision : Type 0 where
  pub disposition : RetryDisposition
  pub delay_seconds : Option ℕ

-- Membership of RETRYABLE_CODES.
unfoldable pub is_retryable_code : String → Bool
is_retryable_code code =
    str_eq code "PROVIDER_NETWORK"
    || str_eq code "PROVIDER_5XX"
    || str_eq code "PROVIDER_TIMEOUT"
    || str_eq code "DB_BUSY"

abbrev refused : RetryDecision
refused = record { disposition = fail; delay_seconds = none }

-- RETRY after `RETRY_DELAYS_SECONDS[attempt_no - 1]`; `none` would be an index out of range.
unfoldable pub backoff : ℕ → RetryDecision
backoff attempt_no = record {
  disposition = retry;
  delay_seconds = get_elem? retry_delays_seconds (attempt_no - 1);
}

-- A rate limit is retried after the provider's own delay, capped; a missing or negative one fails.
unfoldable pub honour_retry_after : Option ℤ → RetryDecision
honour_retry_after none = refused
honour_retry_after (some (negsuc n)) = refused
honour_retry_after (some (pos n)) = record {
  disposition = retry;
  delay_seconds = some (min n max_retry_after_seconds);
}

abbrev pub no_header : Option ℤ → Bool
no_header none = Bool.true
no_header (some n) = Bool.false

-- Attempt numbers start from SQL's COALESCE(MAX(attempt_no), 0), so they are naturals.
unfoldable pub classify_retry : String → ℕ → Option ℤ → RetryDecision
unfolding is_retryable_code backoff honour_retry_after
classify_retry code attempt_no retry_after =
    if attempt_no == 0 || ltb max_retryable_attempt attempt_no
    then refused
    else if str_eq code "PROVIDER_RATE_LIMIT" || str_eq code "HTTP_429"
    then (if str_eq code "HTTP_429" && no_header retry_after
        then backoff attempt_no
        else honour_retry_after retry_after)
    else if str_eq code "HTTP_408" || starts_with code "HTTP_5"
    then backoff attempt_no
    else if starts_with code "HTTP_"
    then refused
    else if not (is_retryable_code code)
    then refused
    else backoff attempt_no
