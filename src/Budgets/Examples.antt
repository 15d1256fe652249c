-- ===== src/Budgets/Examples.antt =====
-- The theorems on the budget at concrete inputs.
use truyenaudio_studio.Prelude.{
  ◌≤◌, ◌≡◌, ◌↔◌, true, ◌++◌, refl, false, none, some, List, [], ◌∷◌, arith, find_where, count_where,
  select_where, update_where,
}
use truyenaudio_studio.Budgets.Schema.{RateCard, Tables, Session, Usage}
use truyenaudio_studio.Budgets.Totals.{committed_vnd, category_authorized_vnd, authorized_amount}
use truyenaudio_studio.Budgets.Guard.{
  CostQuote, ok, quote_expired, reserve_exceeded, authorize, held_row, over_limit, exceeds,
  reserve_limit, validate_authorization_for_quote, current_rate_card, get_authorization,
}
use truyenaudio_studio.Budgets.Guard.Limits.{
  cap_of, authorize-within_limits, authorize-err_keeps, authorize-validates,
}
use truyenaudio_studio.Budgets.Metering.{commit_usage, book_usage}
use truyenaudio_studio.Budgets.Spending.{commit_usage-once}

abbrev card : RateCard
card = record {
  id = 70;
  provider = 1;
  model = 2;
  region = none;
  unit = 3;
  price_usd_micros_per_million_units = 15000000;
  effective_from = 0;
  effective_to = none;
}

abbrev repair_quote : CostQuote
repair_quote = record {
  id = 5;
  operation_id = 6;
  estimate_vnd = 40000;
  contingency_vnd = 6000;
  category = "QA_REPAIR";
  rate_card_id = some 70;
  expires_at = 900;
  rate_card_ids = 70 ∷ [];
  warned = false;
  provider_profile_id = some 8;
  provider_profile_revision = some 1;
  cloud_consent_id = none;
  stage = some 4;
  plan_hash = none;
  quote_hash = some 12345;
}

abbrev no_bookings : Tables
no_bookings = record { rate_cards = card ∷ []; authorizations = []; ledger = [] }

abbrev fresh_session : Session
fresh_session = record { stored = no_bookings; current = no_bookings }

abbrev repair_held : Tables
repair_held = record {
  rate_cards = card ∷ [];
  authorizations = held_row repair_quote ∷ [];
  ledger = [];
}

abbrev held_session : Session
held_session = record { stored = repair_held; current = repair_held }

authorize-within_limits_example :
    ((authorize repair_quote 100 fresh_session).1.stored.authorizations
      ≡ [] ++ held_row repair_quote ∷ [])
    × (committed_vnd 100 (authorize repair_quote 100 fresh_session).1.stored ≤ cap_of "QA_REPAIR")
    × (exceeds
          (category_authorized_vnd "QA_REPAIR" 100
            (authorize repair_quote 100 fresh_session).1.stored)
          (reserve_limit "QA_REPAIR")
        ≡ false)
unfolding authorize over_limit count_where select_where committed_vnd category_authorized_vnd
    authorized_amount
authorize-within_limits_example =
    authorize-within_limits repair_quote 100 fresh_session (held_row repair_quote) refl

-- More than the reserve of QA_REPAIR.
abbrev large_quote : CostQuote
large_quote = record repair_quote { id = 9; estimate_vnd = 450000 }

authorize-err_keeps_example :
    let after = (authorize large_quote 100 held_session).1 in
    (after.stored ≡ repair_held)
    × (after.current ≡ repair_held)
    × ((reserve_exceeded ≡ quote_expired) ↔ (false ≡ true))
unfolding authorize over_limit count_where select_where committed_vnd category_authorized_vnd
    authorized_amount
authorize-err_keeps_example = authorize-err_keeps large_quote 100 held_session reserve_exceeded refl

authorize-validates_example :
    validate_authorization_for_quote 5 repair_quote 800 (authorize repair_quote 100 fresh_session).1
    ≡ ok (held_row repair_quote)
unfolding authorize over_limit count_where select_where committed_vnd category_authorized_vnd
    authorized_amount
authorize-validates_example =
    authorize-validates repair_quote 100 fresh_session (held_row repair_quote) 800 refl
      (omega arith)

abbrev metered : List Usage
metered = record { unit = 3; measured_units = 100000 } ∷ []

commit_usage-once_example :
    commit_usage 5 40 1 2 none metered 300 (commit_usage 5 30 1 2 none metered 200 held_session).1
    ≡ (ok tt, (commit_usage 5 30 1 2 none metered 200 held_session).1)
unfolding commit_usage get_authorization book_usage current_rate_card find_where select_where
    update_where
commit_usage-once_example =
    commit_usage-once 5 30 1 2 none metered 200 held_session 40 1 2 none metered 300 refl
