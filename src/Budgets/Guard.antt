-- ===== src/Budgets/Guard.antt =====
-- BudgetGuard (backend/app/modules/budgets/guard.py). One instant stands for the clock readings of a call.
-- A call gives its result and the session; BudgetBlocked and a failing flush are errors.
pub mod Limits
use text.Mathlib.Text.{◌==◌ as str_eq}
use truyenaudio_studio.Prelude.{
  ℕ, ◌+◌, String, Bool, true, false, ◌||◌, ◌&&◌, not, Option, none, some, List, [], ◌∷◌, ◌++◌, ltb,
  leb, ◌==◌, if◌then◌else◌, opt_eq, find_where, count_where, select_where, update_where,
}
use truyenaudio_studio.Prelude.Int.{ℤ, pos, negsuc}
use truyenaudio_studio.Budgets.Money.{
  contingency, usd_micros, vnd_from_usd_micros, fx_rate_vnd_per_usd, quote_ttl_minutes,
  warning_threshold_vnd, regular_cap_vnd, hard_limit_vnd, qa_repair_reserve_vnd,
  rerender_reserve_vnd,
}
use truyenaudio_studio.Budgets.Schema.{
  RateCard, BudgetAuthorization, AuthorizationStatus, held, committed, released, UsageLedger,
  confirmed, Usage, Tables, Session, commit, rollback, minutes,
}
use truyenaudio_studio.Budgets.Totals.{
  committed_vnd, category_authorized_vnd, is_held, is_committed,
}

pub data Blocked : Type 0 where
  estimate_invalid usage_required rate_missing quote_expired reserve_exceeded : Blocked
  regular_cap_exceeded hard_limit_exceeded authorization_invalid authorization_expired : Blocked
  authorization_not_held metadata_mismatch underfunded integrity_error : Blocked
  measured_units_invalid : Blocked

pub data Result (A : Type 0) : Type 0 where
  ok : A → Result A
  err : Blocked → Result A

pub record CostQuote : Type 0 where
  pub id : ℕ
  pub operation_id : ℕ
  pub estimate_vnd : ℕ
  pub contingency_vnd : ℕ
  pub category : String
  pub rate_card_id : Option ℕ
  pub expires_at : ℕ
  pub rate_card_ids : List ℕ
  pub warned : Bool
  pub provider_profile_id : Option ℕ
  pub provider_profile_revision : Option ℕ
  pub cloud_consent_id : Option ℕ
  pub stage : Option ℕ
  pub plan_hash : Option ℕ
  pub quote_hash : Option ℕ

-- `_warnings_for`: whether the one warning is given.
abbrev pub warnings_for : ℕ → Tables → ℕ → Bool
warnings_for now db quote_total_vnd =
    ltb warning_threshold_vnd (committed_vnd now db + quote_total_vnd)

unfoldable pub quote : ℕ → ℕ → ℤ → String → ℕ → Session → Result CostQuote
quote new_id operation_id (negsuc n) category now s = err estimate_invalid
quote new_id operation_id (pos estimate_vnd) category now s = ok (record {
  id = new_id;
  operation_id = operation_id;
  estimate_vnd = estimate_vnd;
  contingency_vnd = contingency estimate_vnd;
  category = category;
  rate_card_id = none;
  expires_at = now + minutes quote_ttl_minutes;
  rate_card_ids = [];
  warned = warnings_for now s.current (estimate_vnd + contingency estimate_vnd);
  provider_profile_id = none;
  provider_profile_revision = none;
  cloud_consent_id = none;
  stage = none;
  plan_hash = none;
  quote_hash = none;
})

-- A set end is after `now`.
abbrev pub is_open_ended : ℕ → Option ℕ → Bool
is_open_ended now none = true
is_open_ended now (some t) = ltb now t

abbrev pub is_current : ℕ → ℕ → Option ℕ → ℕ → ℕ → RateCard → Bool
is_current provider model region unit now r =
    r.provider == provider
    && (r.model == model
        && (opt_eq r.region region
            && (r.unit == unit && (leb r.effective_from now && is_open_ended now r.effective_to))))

abbrev pub newer : RateCard → Option RateCard → RateCard
newer r none = r
newer r (some other) = if ltb r.effective_from other.effective_from then other else r

-- ORDER BY effective_from DESC, the first row; the earlier of two rows in the table where they tie.
abbrev pub newest : List RateCard → Option RateCard
newest [] = none
newest (r ∷ rs) = some (newer r (newest rs))

-- `_current_rate_card`
unfoldable pub current_rate_card : ℕ → ℕ → Option ℕ → ℕ → ℕ → Tables → Option RateCard
current_rate_card provider model region unit now db =
    newest (select_where (is_current provider model region unit now) db.rate_cards)

-- The authorization that `authorize` adds.
abbrev pub held_row : CostQuote → BudgetAuthorization
held_row q = record {
  id = q.id;
  operation_id = q.operation_id;
  estimate_vnd = q.estimate_vnd;
  contingency_vnd = q.contingency_vnd;
  category = q.category;
  rate_card_ids = q.rate_card_ids;
  provider_profile_id = q.provider_profile_id;
  provider_profile_revision = q.provider_profile_revision;
  cloud_consent_id = q.cloud_consent_id;
  stage = q.stage;
  plan_hash = q.plan_hash;
  quote_hash = q.quote_hash;
  expires_at = q.expires_at;
  status = held;
}

abbrev pub add_authorization : BudgetAuthorization → Session → Session
add_authorization row s = record s {
  current = record s.current { authorizations = s.current.authorizations ++ row ∷ [] };
}

-- RESERVE_LIMITS.get(category)
unfoldable pub reserve_limit : String → Option ℕ
reserve_limit category =
    if str_eq category "QA_REPAIR"
    then some qa_repair_reserve_vnd
    else if str_eq category "RERENDER"
    then some rerender_reserve_vnd
    else none

abbrev pub exceeds : ℕ → Option ℕ → Bool
exceeds amount none = false
exceeds amount (some limit) = ltb limit amount

-- The three tests after the flush, in order; none where they pass.
unfoldable pub over_limit : String → ℕ → Tables → Option Blocked
unfolding reserve_limit
over_limit category now db =
    let total_after = committed_vnd now db in
    if exceeds (category_authorized_vnd category now db) (reserve_limit category)
    then some reserve_exceeded
    else if str_eq category "REGULAR" && ltb regular_cap_vnd total_after
    then some regular_cap_exceeded
    else if ltb hard_limit_vnd total_after
    then some hard_limit_exceeded
    else none

-- Roll back and raise, or commit and give the authorization.
abbrev pub settle :
    Option Blocked → BudgetAuthorization → Session → Result BudgetAuthorization × Session
settle none row s = (ok row, commit s)
settle (some e) row s = (err e, rollback s)

abbrev pub has_id : ℕ → BudgetAuthorization → Bool
has_id i a = a.id == i

-- A flush that breaks the primary key fails and the session is rolled back.
unfoldable pub authorize : CostQuote → ℕ → Session → Result BudgetAuthorization × Session
authorize q now s =
    if leb q.expires_at now
    then (err quote_expired, s)
    else if not (count_where (has_id q.id) s.current.authorizations == 0)
    then (err integrity_error, rollback s)
    else settle (over_limit q.category now (add_authorization (held_row q) s).current) (held_row q)
        (add_authorization (held_row q) s)

-- session.get
unfoldable pub get_authorization : ℕ → Session → Option BudgetAuthorization
get_authorization authorization_id s = find_where (has_id authorization_id) s.current.authorizations

abbrev pub check_row : Option BudgetAuthorization → ℕ → ℕ → Result BudgetAuthorization
check_row none operation_id now = err authorization_invalid
check_row (some row) operation_id now =
    if not (row.operation_id == operation_id) || not (is_held row.status || is_committed row.status)
    then err authorization_invalid
    else if leb row.expires_at now
    then err authorization_expired
    else ok row

unfoldable pub validate_authorization : ℕ → ℕ → ℕ → Session → Result BudgetAuthorization
unfolding get_authorization
validate_authorization authorization_id operation_id now s =
    check_row (get_authorization authorization_id s) operation_id now

abbrev pub same_ids : List ℕ → List ℕ → Bool
same_ids [] [] = true
same_ids (x ∷ xs) (y ∷ ys) = x == y && same_ids xs ys
same_ids _ _ = false

abbrev pub same_origin : BudgetAuthorization → CostQuote → Bool
same_origin a q =
    opt_eq a.provider_profile_id q.provider_profile_id
    && (opt_eq a.provider_profile_revision q.provider_profile_revision
        && (opt_eq a.cloud_consent_id q.cloud_consent_id
            && (opt_eq a.stage q.stage
                && (opt_eq a.plan_hash q.plan_hash && opt_eq a.quote_hash q.quote_hash))))

abbrev pub check_quote : Result BudgetAuthorization → CostQuote → Result BudgetAuthorization
check_quote (err e) q = err e
check_quote (ok a) q =
    if not (is_held a.status)
    then err authorization_not_held
    else if not (str_eq a.category q.category) || not (same_ids a.rate_card_ids q.rate_card_ids)
    then err metadata_mismatch
    else if ltb a.estimate_vnd q.estimate_vnd || ltb a.contingency_vnd q.contingency_vnd
    then err underfunded
    else if not (same_origin a q)
    then err metadata_mismatch
    else ok a

unfoldable pub validate_authorization_for_quote :
    ℕ → CostQuote → ℕ → Session → Result BudgetAuthorization
unfolding validate_authorization
validate_authorization_for_quote authorization_id q now s =
    check_quote (validate_authorization authorization_id q.operation_id now s) q
