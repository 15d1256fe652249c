-- ===== src/Budgets/Spending.antt =====
-- The sum spent or held over time, and booking a usage once.
use truyenaudio_studio.Prelude.{
  ℕ, ◌+◌, ◌≤◌, ◌≡◌, refl, sym, subst, Option, some, List, [], ◌∷◌, arith, leb, Bool-cases,
  Option-cases, ◌⊎◌, inl, inr, find_where, update_where,
}
use truyenaudio_studio.Budgets.Schema.{
  BudgetAuthorization, AuthorizationStatus, held, committed, released, UsageLedger, Usage, Tables,
  Session,
}
use truyenaudio_studio.Budgets.Totals.{sum_of, authorized_amount, committed_vnd}
use truyenaudio_studio.Budgets.Guard.{Result, ok, err, has_id, get_authorization, current_rate_card}
use truyenaudio_studio.Budgets.Metering.{
  book_usage, finish, commit_row, commit_usage, add_entry, entry_of,
}

sum_le :
    {A : Type 0} (f g : A → ℕ) (xs : List A) → ((x : A) → f x ≤ g x) → sum_of f xs ≤ sum_of g xs
sum_le f g [] le = omega arith
sum_le f g (x ∷ xs) le = omega (arith, le x, sum_le f g xs le)

amount_later :
    (now later : ℕ) (ledger : List UsageLedger) (a : BudgetAuthorization)
    → now ≤ later
    → authorized_amount later ledger a ≤ authorized_amount now ledger a
unfolding authorized_amount
amount_later now later ledger a le = ground (arith, le)

-- While the tables stay as they are, the sum spent or held does not grow with time: authorizations only
-- expire.
pub committed_vnd-later :
    (now later : ℕ) (db : Tables) → now ≤ later → committed_vnd later db ≤ committed_vnd now db
unfolding committed_vnd
committed_vnd-later now later db le =
    let sums =
      sum_le (authorized_amount later db.ledger) (authorized_amount now db.ledger) db.authorizations
        (λ a. amount_later now later db.ledger a le) in
    omega (arith, sums)

-- Booking adds entries and leaves the authorizations alone.
book_usage-authorizations :
    (new_id provider model : ℕ) (region : Option ℕ) (operation_id now : ℕ) (us : List Usage)
    (s : Session)
    → (book_usage new_id provider model region operation_id now us s).1.current.authorizations
      ≡ s.current.authorizations
unfolding book_usage
book_usage-authorizations new_id provider model region operation_id now [] s = refl
book_usage-authorizations new_id provider model region operation_id now (u ∷ us) s =
    elim (Option-cases (current_rate_card provider model region u.unit now s.current)) [
      | inl missing ↦ ground (arith, missing)
      | inr (card, found) ↦ ground (
        arith,
        found,
        book_usage-authorizations (new_id + 1) provider model region operation_id now us
            (add_entry (entry_of new_id provider model region operation_id u card) s),
      )
    ]

find-committed :
    (i : ℕ) (rows : List BudgetAuthorization) {r : BudgetAuthorization}
    → find_where (has_id i) rows ≡ some r
    → find_where (has_id i) (update_where (has_id i) (λ a. record a { status = committed }) rows)
      ≡ some (record r { status = committed })
unfolding find_where update_where
find-committed i [] h = cc
find-committed i (x ∷ xs) {r} h = ground (arith, h, find-committed i xs {r = r})

IsBooked : ℕ → Session → Type 0
IsBooked i s = (r : BudgetAuthorization) × (get_authorization i s ≡ some r) × (r.status ≡ committed)

status-cases : (t : AuthorizationStatus) → ((t ≡ held) ⊎ (t ≡ committed)) ⊎ (t ≡ released)
status-cases held = inl (inl refl)
status-cases committed = inl (inr refl)
status-cases released = inr refl

finish-IsBooked :
    (i : ℕ) (rows : List BudgetAuthorization) (r : BudgetAuthorization)
    (out : Result (Unit {0}) × Session)
    → find_where (has_id i) rows ≡ some r
    → out.1.current.authorizations ≡ rows
    → (finish i out).0 ≡ ok tt
    → IsBooked i (finish i out).1
unfolding IsBooked get_authorization
finish-IsBooked i rows r (err e, s) found same h = absurd (ground (arith, h))
finish-IsBooked i rows r (ok u, s) found same h =
    (record r { status = committed }, rw same (find-committed i rows found), refl)

module _ (authorization_id new_id provider model : ℕ) (region : Option ℕ) (usage : List Usage)
    (now : ℕ) (s : Session) where
  commit_row-IsBooked :
      (r : BudgetAuthorization)
      → get_authorization authorization_id s ≡ some r
      → (commit_row (some r) authorization_id new_id provider model region usage now s).0 ≡ ok tt
      → IsBooked authorization_id
          (commit_row (some r) authorization_id new_id provider model region usage now s).1
  unfolding IsBooked get_authorization
  commit_row-IsBooked r found h = elim (status-cases r.status) [
    | inl (inr e) ↦ rw e (r, found, e)
    | inr e ↦ absurd (ground (arith, h, e))
    | inl (inl e) ↦ elim (Bool-cases (leb r.expires_at now)) [
      | inl late ↦ absurd (ground (arith, h, e, late))
      | inr early ↦
          (let booking = book_usage new_id provider model region r.operation_id now usage s in
            let same : commit_row (some r) authorization_id new_id provider model region usage now s
                ≡ finish authorization_id booking =
              ground (arith, e, early) in
            subst (λ (out : Result (Unit {0}) × Session). IsBooked authorization_id out.1)
              (sym same)
              (finish-IsBooked authorization_id s.current.authorizations r booking found
                (book_usage-authorizations new_id provider model region r.operation_id now usage s)
                (subst (λ (out : Result (Unit {0}) × Session). out.0 ≡ ok tt) same h)))
    ]
  ]

  commit_usage-IsBooked :
      (commit_usage authorization_id new_id provider model region usage now s).0 ≡ ok tt
      → IsBooked authorization_id
          (commit_usage authorization_id new_id provider model region usage now s).1
  unfolding commit_usage
  commit_usage-IsBooked h = elim (Option-cases (get_authorization authorization_id s)) [
    | inl missing ↦ absurd (ground (arith, h, missing))
    | inr (r, found) ↦
        (let same : commit_usage authorization_id new_id provider model region usage now s
              ≡ commit_row (some r) authorization_id new_id provider model region usage now s =
            rw found refl in
          subst (λ (out : Result (Unit {0}) × Session). IsBooked authorization_id out.1) (sym same)
            (commit_row-IsBooked r found
              (subst (λ (out : Result (Unit {0}) × Session). out.0 ≡ ok tt) same h)))
  ]

  booked-again :
      IsBooked authorization_id s
      → commit_usage authorization_id new_id provider model region usage now s ≡ (ok tt, s)
  unfolding commit_usage IsBooked
  booked-again (r, found, e) = ground (arith, found, e)

-- When `commit_usage` has returned, a later call for the same authorization returns as well and changes
-- nothing, whatever usage it brings: no usage is booked twice.
pub commit_usage-once :
    (authorization_id new_id provider model : ℕ) (region : Option ℕ) (usage : List Usage) (now : ℕ)
    (s : Session) (other_id other_provider other_model : ℕ) (other_region : Option ℕ)
    (other_usage : List Usage) (later : ℕ)
    → (commit_usage authorization_id new_id provider model region usage now s).0 ≡ ok tt
    → commit_usage authorization_id other_id other_provider other_model other_region other_usage
        later
        (commit_usage authorization_id new_id provider model region usage now s).1
      ≡ (ok tt, (commit_usage authorization_id new_id provider model region usage now s).1)
commit_usage-once authorization_id new_id provider model region usage now s other_id other_provider
      other_model other_region other_usage later h =
    booked-again authorization_id other_id other_provider other_model other_region other_usage later
      (commit_usage authorization_id new_id provider model region usage now s).1
      (commit_usage-IsBooked authorization_id new_id provider model region usage now s h)
