-- ===== src/Budgets/Schema.antt =====
-- The tables rate_cards, budget_authorizations and usage_ledger (backend/app/db/models.py) and a session
-- over them. Identifiers, names, stages and hashes are only compared, so a number stands for each; an
-- instant is a number of microseconds.
use truyenaudio_studio.Prelude.{ℕ, ◌*◌, String, Option, List}

pub record RateCard : Type 0 where
  pub id : ℕ
  pub provider : ℕ
  pub model : ℕ
  pub region : Option ℕ
  pub unit : ℕ
  pub price_usd_micros_per_million_units : ℕ
  pub effective_from : ℕ
  pub effective_to : Option ℕ

pub data AuthorizationStatus : Type 0 where
  held committed released : AuthorizationStatus

pub record BudgetAuthorization : Type 0 where
  pub id : ℕ
  pub operation_id : ℕ
  pub estimate_vnd : ℕ
  pub contingency_vnd : ℕ
  pub category : String
  pub rate_card_ids : List ℕ
  pub provider_profile_id : Option ℕ
  pub provider_profile_revision : Option ℕ
  pub cloud_consent_id : Option ℕ
  pub stage : Option ℕ
  pub plan_hash : Option ℕ
  pub quote_hash : Option ℕ
  pub expires_at : ℕ
  pub status : AuthorizationStatus

pub data BillingConfidence : Type 0 where
  confirmed estimated unknown : BillingConfidence

pub record UsageLedger : Type 0 where
  pub id : ℕ
  pub provider : ℕ
  pub model : ℕ
  pub region : Option ℕ
  pub operation_id : ℕ
  pub unit : ℕ
  pub measured_units : ℕ
  pub rate_card_id : Option ℕ
  pub actual_usd_micros : Option ℕ
  pub fx_rate : Option ℕ
  pub actual_vnd : Option ℕ
  pub billing_confidence : BillingConfidence

-- Usage that a provider reports for one unit.
pub record Usage : Type 0 where
  pub unit : ℕ
  pub measured_units : ℕ

pub record Tables : Type 0 where
  pub rate_cards : List RateCard
  pub authorizations : List BudgetAuthorization
  pub ledger : List UsageLedger

-- A session: what the database holds, and the same with the session's own writes.
pub record Session : Type 0 where
  pub stored : Tables
  pub current : Tables

abbrev pub commit : Session → Session
commit s = record { stored = s.current; current = s.current }

abbrev pub rollback : Session → Session
rollback s = record { stored = s.stored; current = s.stored }

-- timedelta(minutes=n)
abbrev pub minutes : ℕ → ℕ
minutes n = n * 60000000
