-- ===== src/Budgets/Guard/Limits.antt =====
-- What `authorize` guarantees of the stored tables, and that its authorization validates for its quote.
use text.Mathlib.Text.{◌==◌ as str_eq}
use text.Mathlib.TextPositions.{eq_refl}
use truyenaudio_studio.Prelude.{
  ℕ, ◌<◌, ◌≤◌, ◌≡◌, refl, sym, subst, String, true, false, Option, none, some, List, [], ◌∷◌, ◌++◌,
  arith, leb, ◌==◌, if◌then◌else◌, Bool-cases, Option-cases, inl, inr, ◌↔◌, opt_eq, count_where,
  find_where,
}
use truyenaudio_studio.Budgets.Schema.{commit, BudgetAuthorization, Session, Tables}
use truyenaudio_studio.Budgets.Totals.{committed_vnd, category_authorized_vnd}
use truyenaudio_studio.Budgets.Guard.{
  Blocked, quote_expired, ok, err, CostQuote, authorize, held_row, add_authorization, over_limit,
  exceeds, reserve_limit, has_id, validate_authorization_for_quote, same_ids, check_quote,
  check_row,
}

-- The cap of a category on the whole sum.
abbrev pub cap_of : String → ℕ
cap_of category = if str_eq category "REGULAR" then 400000 else 500000

over_limit-none :
    (category : String) (now : ℕ) (db : Tables)
    → over_limit category now db ≡ none
    → (committed_vnd now db ≤ cap_of category)
      × (exceeds (category_authorized_vnd category now db) (reserve_limit category) ≡ false)
unfolding over_limit
over_limit-none category now db h = (ground (arith, h), ground (arith, h))

over_limit-other :
    (category : String) (now : ℕ) (db : Tables)
    → ¬ (over_limit category now db ≡ some quote_expired)
unfolding over_limit
over_limit-other category now db h = ground (arith, h)

opt_eq_refl : (o : Option ℕ) → opt_eq o o ≡ true
opt_eq_refl none = refl
opt_eq_refl (some n) = ground arith

same_ids_refl : (ids : List ℕ) → same_ids ids ids ≡ true
same_ids_refl [] = refl
same_ids_refl (x ∷ xs) = ground (arith, same_ids_refl xs)

find-appended :
    (i : ℕ) (rows : List BudgetAuthorization) (r : BudgetAuthorization)
    → count_where (has_id i) rows == 0 ≡ true
    → r.id ≡ i
    → find_where (has_id i) (rows ++ r ∷ []) ≡ some r
unfolding count_where find_where
find-appended i [] r h e = ground (arith, e)
find-appended i (x ∷ xs) r h e = ground (arith, h, e, find-appended i xs r)

module _ (q : CostQuote) (now : ℕ) (s : Session) where
  authorize-settled :
      (a : BudgetAuthorization)
      → (authorize q now s).0 ≡ ok a
      → (leb q.expires_at now ≡ false)
        × (count_where (has_id q.id) s.current.authorizations == 0 ≡ true)
        × (over_limit q.category now (add_authorization (held_row q) s).current ≡ none)
        × (held_row q ≡ a)
        × ((authorize q now s).1 ≡ commit (add_authorization (held_row q) s))
  unfolding authorize
  authorize-settled a h = elim (Bool-cases (leb q.expires_at now)) [
    | inl late ↦ absurd (ground (arith, h, late))
    | inr early ↦ elim (Bool-cases (count_where (has_id q.id) s.current.authorizations == 0)) [
      | inr taken ↦ absurd (ground (arith, h, early, taken))
      | inl fresh ↦
          elim (Option-cases
            (over_limit q.category now (add_authorization (held_row q) s).current)) [
              | inr (e, over) ↦ absurd (ground (arith, h, early, fresh, over))
              | inl within ↦ (
                early,
                fresh,
                within,
                ground (arith, h, early, fresh, within),
                ground (arith, h, early, fresh, within),
              )
            ]
    ]
  ]

  -- When `authorize` returns an authorization, the stored tables have it beside the rows there were in
  -- the session, the sum spent or held is at most 400,000 dong for a REGULAR quote and 500,000 otherwise, and
  -- the sum of a reserve category is within its reserve.
  pub authorize-within_limits :
      (a : BudgetAuthorization)
      → (authorize q now s).0 ≡ ok a
      → let db = (authorize q now s).1.stored in
        (db.authorizations ≡ s.current.authorizations ++ a ∷ [])
        × (committed_vnd now db ≤ cap_of q.category)
        × (exceeds (category_authorized_vnd q.category now db) (reserve_limit q.category) ≡ false)
  authorize-within_limits a h =
      let (early, fresh, within, same, after) = authorize-settled a h in
      let limits =
        over_limit-none q.category now (add_authorization (held_row q) s).current within in
      rw after (rw (sym same) refl, limits.0, limits.1)

  -- When `authorize` raises, the stored tables are as before. It raises `quote_expired` exactly when the quote has
  -- expired, and then the session is as before; otherwise the session shows the stored tables, so its own writes are
  -- lost, the new authorization among them.
  pub authorize-err_keeps :
      (e : Blocked)
      → (authorize q now s).0 ≡ err e
      → let after = (authorize q now s).1 in
        (after.stored ≡ s.stored)
        × (after.current ≡ (if leb q.expires_at now then s.current else s.stored))
        × ((e ≡ quote_expired) ↔ (leb q.expires_at now ≡ true))
  unfolding authorize
  authorize-err_keeps e h = elim (Bool-cases (leb q.expires_at now)) [
    | inl late ↦ (
      ground (arith, late),
      ground (arith, late),
      ((λ is. late), (λ is. ground (arith, h, late))),
    )
    | inr early ↦ elim (Bool-cases (count_where (has_id q.id) s.current.authorizations == 0)) [
      | inr taken ↦ (
        ground (arith, early, taken),
        ground (arith, early, taken),
        (
          (λ is. absurd (ground (arith, h, is, early, taken))),
          (λ is. absurd (ground (arith, is, early))),
        ),
      )
      | inl fresh ↦
          elim (Option-cases
            (over_limit q.category now (add_authorization (held_row q) s).current)) [
              | inl within ↦ absurd (ground (arith, h, early, fresh, within))
              | inr (d, over) ↦ (
                ground (arith, early, fresh, over),
                ground (arith, early, fresh, over),
                (
                  (λ is. absurd (
                      over_limit-other q.category now (add_authorization (held_row q) s).current
                        (ground (arith, h, is, early, fresh, over)))),
                  (λ is. absurd (ground (arith, is, early))),
                ),
              )
            ]
    ]
  ]

  held-accepted :
      (later : ℕ)
      → later < q.expires_at
      → check_quote (check_row (some (held_row q)) q.operation_id later) q ≡ ok (held_row q)
  held-accepted later soon = ground (
    arith,
    soon,
    eq_refl q.category,
    same_ids_refl q.rate_card_ids,
    opt_eq_refl q.provider_profile_id,
    opt_eq_refl q.provider_profile_revision,
    opt_eq_refl q.cloud_consent_id,
    opt_eq_refl q.stage,
    opt_eq_refl q.plan_hash,
    opt_eq_refl q.quote_hash,
  )

  -- The authorization that `authorize` returns validates for its quote until the quote expires.
  pub authorize-validates :
      (a : BudgetAuthorization) (later : ℕ)
      → (authorize q now s).0 ≡ ok a
      → later < q.expires_at
      → validate_authorization_for_quote a.id q later (authorize q now s).1 ≡ ok a
  unfolding validate_authorization_for_quote
  authorize-validates a later h soon =
      let (early, fresh, within, same, after) = authorize-settled a h in
      rw after (
        rw (sym same) (
          subst (λ found. check_quote (check_row found q.operation_id later) q ≡ ok (held_row q))
            (sym (find-appended q.id s.current.authorizations (held_row q) fresh refl))
            (held-accepted later soon)))
