-- ===== src/Jobs/Retry/Bounds.antt =====
-- Retries are bounded in number and in delay.
use text.Mathlib.Text.{◌==◌ as str_eq, starts_with}
use truyenaudio_studio.Prelude.{
  ℕ, zero, suc, ◌≤◌, ◌≡◌, refl, inl, inr, Bool, true, false, ◌||◌, ◌&&◌, not, min, String, Option,
  none, some, arith, ltb, ◌==◌, if◌then◌else◌, Bool-cases,
}
use truyenaudio_studio.Prelude.Int.{ℤ, pos, negsuc}
use truyenaudio_studio.Jobs.Retry.{
  RetryDecision, retry, fail, classify_retry, backoff, honour_retry_after, no_header,
  is_retryable_code,
}

-- The delay that a decision names, and no more than ten minutes.
abbrev pub IsBounded : RetryDecision → Type 0
IsBounded d = d.disposition ≡ retry → (s : ℕ) × (d.delay_seconds ≡ some s) × (s ≤ 600)

backoff-IsBounded : (n : ℕ) → (n == 0 || ltb 3 n) ≡ false → IsBounded (backoff n)
unfolding backoff
backoff-IsBounded zero h = λ _. absurd (ground arith)
backoff-IsBounded (suc zero) h = λ _. (2, refl, omega arith)
backoff-IsBounded (suc (suc zero)) h = λ _. (10, refl, omega arith)
backoff-IsBounded (suc (suc (suc zero))) h = λ _. (30, refl, omega arith)
backoff-IsBounded (suc (suc (suc (suc n)))) h = λ _. absurd (ground arith)

honour-IsBounded : (r : Option ℤ) → IsBounded (honour_retry_after r)
unfolding honour_retry_after
honour-IsBounded none = λ e. cc
honour-IsBounded (some (pos n)) = λ _. (min n 600, refl, omega arith)
honour-IsBounded (some (negsuc n)) = λ e. cc

choose :
    (c : Bool) (x y : RetryDecision) → IsBounded x → IsBounded y → IsBounded (if c then x else y)
choose true x y hx hy = hx
choose false x y hx hy = hy

refused-IsBounded : (d : RetryDecision) → d.disposition ≡ fail → IsBounded d
refused-IsBounded d e = λ h. cc

classify-IsBounded :
    (code : String) (n : ℕ) (r : Option ℤ)
    → (n == 0 || ltb 3 n) ≡ false
    → IsBounded (classify_retry code n r)
unfolding classify_retry
classify-IsBounded code n r within =
    let b = backoff-IsBounded n within in
    rw within (
      choose (str_eq code "PROVIDER_RATE_LIMIT" || str_eq code "HTTP_429") _ _
        (choose (str_eq code "HTTP_429" && no_header r) _ _ b (honour-IsBounded r))
        (choose (str_eq code "HTTP_408" || starts_with code "HTTP_5") _ _ b (
          choose (starts_with code "HTTP_") _ _ (refused-IsBounded _ refl)
            (choose (not (is_retryable_code code)) _ _ (refused-IsBounded _ refl) b))))

-- A decision to retry is made for attempts 1, 2 and 3 only, and names a delay of at most 600 seconds.
pub classify_retry_bounds :
    (code : String) (attempt_no : ℕ) (retry_after : Option ℤ)
    → (classify_retry code attempt_no retry_after).disposition ≡ retry
    → (1 ≤ attempt_no)
      × (attempt_no ≤ 3)
      × ((s : ℕ) × ((classify_retry code attempt_no retry_after).delay_seconds ≡ some s)
          × (s ≤ 600))
unfolding classify_retry
classify_retry_bounds code n r h = elim (Bool-cases (n == 0 || ltb 3 n)) [
  | inl out ↦ absurd (ground (arith, out, h))
  | inr within ↦
      (ground (arith, within), ground (arith, within), classify-IsBounded code n r within h)
]
