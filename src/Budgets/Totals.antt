-- ===== src/Budgets/Totals.antt =====
-- `_committed_vnd` and `_category_authorized_vnd` of backend/app/modules/budgets/guard.py: what has been
-- spent or is held at an instant.
use text.Mathlib.Text.{◌==◌ as str_eq}
use truyenaudio_studio.Prelude.{
  ℕ, ◌+◌, String, Bool, true, false, ◌||◌, ◌&&◌, not, Option, none, some, List, [], ◌∷◌, ltb, ◌==◌,
  if◌then◌else◌, is_none, select_where, count_where,
}
use truyenaudio_studio.Budgets.Schema.{
  BudgetAuthorization, AuthorizationStatus, held, committed, released, UsageLedger,
  BillingConfidence, unknown, Tables,
}

-- `actual_vnd or 0`
abbrev pub or_zero : Option ℕ → ℕ
or_zero none = 0
or_zero (some n) = n

abbrev pub sum_of {ℓ} : {A : Type ℓ} → (A → ℕ) → List A → ℕ
sum_of f [] = 0
sum_of f (x ∷ xs) = f x + sum_of f xs

abbrev pub authorization_total : BudgetAuthorization → ℕ
authorization_total row = row.estimate_vnd + row.contingency_vnd

abbrev pub is_unknown : BillingConfidence → Bool
is_unknown unknown = true
is_unknown _ = false

-- The entry does not say what was spent.
abbrev pub is_unsettled : UsageLedger → Bool
is_unsettled l = is_unknown l.billing_confidence || is_none l.actual_vnd

-- `_committed_operation_total`: the entries' sum, or the authorization where the entries do not tell.
unfoldable pub committed_operation_total : BudgetAuthorization → List UsageLedger → ℕ
committed_operation_total row [] = authorization_total row
committed_operation_total row (l ∷ ls) =
    if count_where is_unsettled (l ∷ ls) == 0
    then sum_of (λ e. or_zero e.actual_vnd) (l ∷ ls)
    else authorization_total row

-- The entries of an operation, as `_ledger_by_operation` groups them.
abbrev pub of_operation : ℕ → UsageLedger → Bool
of_operation operation_id l = l.operation_id == operation_id

abbrev pub is_committed : AuthorizationStatus → Bool
is_committed committed = true
is_committed _ = false

abbrev pub is_held : AuthorizationStatus → Bool
is_held held = true
is_held _ = false

-- What one authorization counts for.
unfoldable pub authorized_amount : ℕ → List UsageLedger → BudgetAuthorization → ℕ
unfolding committed_operation_total
authorized_amount now ledger row = elim row.status [
  | held ↦ if ltb now row.expires_at then authorization_total row else 0
  | committed ↦ committed_operation_total row (select_where (of_operation row.operation_id) ledger)
  | released ↦ 0
]

-- Membership of counted_operations.
abbrev pub is_counted : List BudgetAuthorization → ℕ → Bool
is_counted authorizations operation_id =
    not (
      count_where (λ a. is_committed a.status && a.operation_id == operation_id) authorizations
      == 0)

abbrev pub uncounted_amount : List BudgetAuthorization → UsageLedger → ℕ
uncounted_amount authorizations l =
    if is_counted authorizations l.operation_id then 0 else or_zero l.actual_vnd

unfoldable pub committed_vnd : ℕ → Tables → ℕ
unfolding authorized_amount
committed_vnd now db =
    sum_of (authorized_amount now db.ledger) db.authorizations
    + sum_of (uncounted_amount db.authorizations) db.ledger

unfoldable pub category_authorized_vnd : String → ℕ → Tables → ℕ
unfolding authorized_amount
category_authorized_vnd category now db =
    sum_of (authorized_amount now db.ledger)
      (select_where (λ a. str_eq a.category category) db.authorizations)
