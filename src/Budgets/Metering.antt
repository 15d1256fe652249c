-- ===== src/Budgets/Metering.antt =====
-- The methods of BudgetGuard (backend/app/modules/budgets/guard.py) that price and book usage:
-- `quote_usage`, `commit_usage` and `release_authorization`.
use truyenaudio_studio.Prelude.{
  ℕ, ◌+◌, String, true, false, Option, none, some, List, [], ◌∷◌, ◌++◌, leb, update_where,
}
use truyenaudio_studio.Prelude.Int.{ℤ, pos, negsuc}
use truyenaudio_studio.Budgets.Money.{
  contingency, usd_micros, vnd_from_usd_micros, fx_rate_vnd_per_usd, quote_ttl_minutes,
}
use truyenaudio_studio.Budgets.Schema.{
  RateCard, BudgetAuthorization, AuthorizationStatus, held, committed, released, UsageLedger,
  confirmed, Usage, Tables, Session, commit, minutes,
}
use truyenaudio_studio.Budgets.Guard.{
  usage_required, rate_missing, measured_units_invalid, authorization_invalid,
  authorization_expired, authorization_not_held, Result, ok, err, CostQuote, warnings_for,
  current_rate_card, has_id, get_authorization,
}

-- The payload of `_quote_hash`.
pub record Payload : Type 0 where
  pub category : String
  pub cloud_consent_id : Option ℕ
  pub contingency_vnd : ℕ
  pub estimate_vnd : ℕ
  pub operation_id : ℕ
  pub plan_hash : Option ℕ
  pub provider_profile_id : Option ℕ
  pub provider_profile_revision : Option ℕ
  pub rate_card_ids : List ℕ
  pub stage : Option ℕ

-- What the caller names for a quote.
pub record Request : Type 0 where
  pub operation_id : ℕ
  pub provider : ℕ
  pub model : ℕ
  pub region : Option ℕ
  pub category : String
  pub provider_profile_id : Option ℕ
  pub provider_profile_revision : Option ℕ
  pub cloud_consent_id : Option ℕ
  pub stage : Option ℕ
  pub plan_hash : Option ℕ

-- What `units` cost by a rate card, in dong.
abbrev pub cost_vnd : RateCard → ℕ → ℕ
cost_vnd card measured_units =
    vnd_from_usd_micros (usd_micros card.price_usd_micros_per_million_units measured_units)

-- An item of a quote, whose units may be negative.
pub record QuoteItem : Type 0 where
  pub unit : ℕ
  pub measured_units : ℤ

abbrev pub price_item : Option RateCard → ℕ → Result (ℕ × List ℕ) → Result (ℕ × List ℕ)
price_item none units rest = err rate_missing
price_item (some card) units (err e) = err e
price_item (some card) units (ok (total, ids)) = ok (cost_vnd card units + total, card.id ∷ ids)

-- `_require_non_negative_int`, and then the price of the item.
abbrev pub price_units : Option RateCard → ℤ → Result (ℕ × List ℕ) → Result (ℕ × List ℕ)
price_units card (negsuc n) rest = err measured_units_invalid
price_units card (pos units) rest = price_item card units rest

-- The loop of `quote_usage`: the estimate and the rate cards, or the first item's error.
unfoldable pub price_usage : ℕ → ℕ → Option ℕ → ℕ → Tables → List QuoteItem → Result (ℕ × List ℕ)
price_usage provider model region now db [] = ok (0, [])
price_usage provider model region now db (u ∷ us) =
    price_units (current_rate_card provider model region u.unit now db) u.measured_units
      (price_usage provider model region now db us)

abbrev pub only_one : List ℕ → Option ℕ
only_one (x ∷ []) = some x
only_one _ = none

-- `_quote_hash` is the SHA-256 of the payload's JSON text, both from Python's library.
module _ (hexdigest : Payload → ℕ) where
  abbrev pub quote_for : ℕ → Request → ℕ → ℕ → List ℕ → Session → CostQuote
  quote_for new_id r now estimate_vnd rate_card_ids s = record {
    id = new_id;
    operation_id = r.operation_id;
    estimate_vnd = estimate_vnd;
    contingency_vnd = contingency estimate_vnd;
    category = r.category;
    rate_card_id = only_one rate_card_ids;
    expires_at = now + minutes quote_ttl_minutes;
    rate_card_ids = rate_card_ids;
    warned = warnings_for now s.current (estimate_vnd + contingency estimate_vnd);
    provider_profile_id = r.provider_profile_id;
    provider_profile_revision = r.provider_profile_revision;
    cloud_consent_id = r.cloud_consent_id;
    stage = r.stage;
    plan_hash = r.plan_hash;
    quote_hash = some (
        hexdigest (record {
          category = r.category;
          cloud_consent_id = r.cloud_consent_id;
          contingency_vnd = contingency estimate_vnd;
          estimate_vnd = estimate_vnd;
          operation_id = r.operation_id;
          plan_hash = r.plan_hash;
          provider_profile_id = r.provider_profile_id;
          provider_profile_revision = r.provider_profile_revision;
          rate_card_ids = rate_card_ids;
          stage = r.stage;
        }));
  }

  abbrev pub quote_priced : ℕ → Request → ℕ → Session → Result (ℕ × List ℕ) → Result CostQuote
  quote_priced new_id r now s (err e) = err e
  quote_priced new_id r now s (ok (total, ids)) = ok (quote_for new_id r now total ids s)

  unfoldable pub quote_usage : ℕ → Request → List QuoteItem → ℕ → Session → Result CostQuote
  quote_usage new_id r [] now s = err usage_required
  quote_usage new_id r (u ∷ us) now s =
      quote_priced new_id r now s (price_usage r.provider r.model r.region now s.current (u ∷ us))

abbrev pub add_entry : UsageLedger → Session → Session
add_entry l s = record s { current = record s.current { ledger = s.current.ledger ++ l ∷ [] } }

abbrev pub entry_of : ℕ → ℕ → ℕ → Option ℕ → ℕ → Usage → RateCard → UsageLedger
entry_of new_id provider model region operation_id u card = record {
  id = new_id;
  provider = provider;
  model = model;
  region = region;
  operation_id = operation_id;
  unit = u.unit;
  measured_units = u.measured_units;
  rate_card_id = some card.id;
  actual_usd_micros = some (usd_micros card.price_usd_micros_per_million_units u.measured_units);
  fx_rate = some fx_rate_vnd_per_usd;
  actual_vnd = some (cost_vnd card u.measured_units);
  billing_confidence = confirmed;
}

-- The loop of `commit_usage`, with fresh identifiers from `new_id` on. An item without a rate card
-- raises; the entries of the items before it stay in the session, which is not rolled back.
unfoldable pub book_usage :
    ℕ → ℕ → ℕ → Option ℕ → ℕ → ℕ → List Usage → Session → Result (Unit {0}) × Session
book_usage new_id provider model region operation_id now [] s = (ok tt, s)
book_usage new_id provider model region operation_id now (u ∷ us) s =
    elim (current_rate_card provider model region u.unit now s.current) [
      | none ↦ (err rate_missing, s)
      | some card ↦
          book_usage (new_id + 1) provider model region operation_id now us
            (add_entry (entry_of new_id provider model region operation_id u card) s)
    ]

abbrev pub set_status : ℕ → AuthorizationStatus → Session → Session
set_status authorization_id status s = record s {
  current = record s.current {
    authorizations =
        update_where (has_id authorization_id) (λ a. record a { status = status })
          s.current.authorizations;
  };
}

abbrev pub finish : ℕ → Result (Unit {0}) × Session → Result (Unit {0}) × Session
finish authorization_id (err e, s) = (err e, s)
finish authorization_id (ok u, s) = (ok tt, commit (set_status authorization_id committed s))

abbrev pub commit_row :
    Option BudgetAuthorization
    → ℕ
    → ℕ
    → ℕ
    → ℕ
    → Option ℕ
    → List Usage
    → ℕ
    → Session
    → Result (Unit {0}) × Session
commit_row none authorization_id new_id provider model region usage now s =
    (err authorization_invalid, s)
commit_row (some row) authorization_id new_id provider model region usage now s = elim row.status [
  | committed ↦ (ok tt, s)
  | released ↦ (err authorization_not_held, s)
  | held ↦ elim (leb row.expires_at now) [
    | true ↦ (err authorization_expired, s)
    | false ↦
        finish authorization_id
          (book_usage new_id provider model region row.operation_id now usage s)
  ]
]

unfoldable pub commit_usage :
    ℕ → ℕ → ℕ → ℕ → Option ℕ → List Usage → ℕ → Session → Result (Unit {0}) × Session
unfolding get_authorization
commit_usage authorization_id new_id provider model region usage now s =
    commit_row (get_authorization authorization_id s) authorization_id new_id provider model region
      usage now s

abbrev pub release_row : Option BudgetAuthorization → ℕ → Session → Result (Unit {0}) × Session
release_row none authorization_id s = (err authorization_invalid, s)
release_row (some row) authorization_id s = elim row.status [
  | held ↦ (ok tt, commit (set_status authorization_id released s))
  | committed ↦ (ok tt, s)
  | released ↦ (ok tt, s)
]

unfoldable pub release_authorization : ℕ → Session → Result (Unit {0}) × Session
unfolding get_authorization
release_authorization authorization_id s =
    release_row (get_authorization authorization_id s) authorization_id s
