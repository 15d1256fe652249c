-- ===== src/Translation/Context/Budget.antt =====
-- The selection stays within the budget, and leaves out nothing that would still fit.
use truyenaudio_studio.Prelude.{
  ℕ, ◌+◌, ◌≤◌, ◌<◌, ◌≡◌, refl, ap, subst, ◌⊎◌, inl, inr, Option, List, [], ◌∷◌, leb, All, All-map,
  arith, Bool-cases,
}
use truyenaudio_studio.Prelude.Int.{pos}
use truyenaudio_studio.Translation.Context.{
  ContextItem, VectorContextHint, Payload, Chosen, ContextSelection, Result, ok,
  token_budget_invalid, token_estimate_invalid, cost_of, is_negative, natural, key_leb, insert_item,
  sorted, add_selected, add_excluded, choose, to_selection, select_context,
}

-- The tokens of the items.
abbrev pub tokens : List ContextItem → ℕ
tokens [] = 0
tokens (x ∷ xs) = natural (cost_of x) + tokens xs

abbrev pub IsIn : {A : Type 0} → A → List A → Type 0
IsIn x [] = ⊥
IsIn x (y ∷ ys) = (x ≡ y) ⊎ IsIn x ys

-- The item is selected, or excluded because it does not fit beside the selected ones.
abbrev pub IsPlaced : ℕ → List ContextItem → List ℕ → ℕ → ContextItem → Type 0
IsPlaced token_budget items excluded total x =
    IsIn x items ⊎ (IsIn x.id excluded × (token_budget < total + natural (cost_of x)))

ok-inj : {A : Type 0} {a b : A} → ok a ≡ ok b → a ≡ b
ok-inj h = ground (arith, h)

add_selected-ok :
    (item : ContextItem) (r : Result Chosen) {chosen : Chosen}
    → add_selected item r ≡ ok chosen
    → (c : Chosen) × (r ≡ ok c) × (record c { items = item ∷ c.items } ≡ chosen)
add_selected-ok item (ok c) h = (c, refl, ok-inj h)
add_selected-ok item token_budget_invalid h = absurd (ground (arith, h))
add_selected-ok item token_estimate_invalid h = absurd (ground (arith, h))

add_excluded-ok :
    (item : ContextItem) (r : Result Chosen) {chosen : Chosen}
    → add_excluded item r ≡ ok chosen
    → (c : Chosen) × (r ≡ ok c) × (record c { excluded = item.id ∷ c.excluded } ≡ chosen)
add_excluded-ok item (ok c) h = (c, refl, ok-inj h)
add_excluded-ok item token_budget_invalid h = absurd (ground (arith, h))
add_excluded-ok item token_estimate_invalid h = absurd (ground (arith, h))

abbrev IsChoice : ℕ → ℕ → List ContextItem → Chosen → Type 0
IsChoice token_budget total xs chosen =
    (total ≤ chosen.total)
    × (chosen.total ≤ token_budget)
    × (chosen.total ≡ total + tokens chosen.items)
    × All (IsPlaced token_budget chosen.items chosen.excluded chosen.total) xs

choose-IsChoice :
    (token_budget total : ℕ) (xs : List ContextItem) {chosen : Chosen}
    → total ≤ token_budget
    → choose token_budget total xs ≡ ok chosen
    → IsChoice token_budget total xs chosen
unfolding choose
choose-IsChoice token_budget total [] within h =
    subst (IsChoice token_budget total []) (ok-inj h) (omega arith, within, omega arith, tt)
choose-IsChoice token_budget total (x ∷ xs) {chosen} within h =
    elim (Bool-cases (is_negative (cost_of x))) [
      | inl negative ↦ absurd (ground (arith, h, negative))
      | inr natural_cost ↦ elim (Bool-cases (leb (total + natural (cost_of x)) token_budget)) [
        | inl fits ↦
            let (c, returns, same) =
              add_selected-ok x (choose token_budget (total + natural (cost_of x)) xs)
                {chosen = chosen} (ground (arith, h, natural_cost, fits)) in
            let (low, high, sum, placed) =
              choose-IsChoice token_budget (total + natural (cost_of x)) xs {chosen = c}
                (ground (arith, fits)) returns in
            subst (IsChoice token_budget total (x ∷ xs)) same (
              omega (arith, low),
              high,
              omega (arith, sum),
              (
                inl (inl refl),
                All-map (IsPlaced token_budget c.items c.excluded c.total)
                    (IsPlaced token_budget (x ∷ c.items) c.excluded c.total) xs
                    (λ y p. elim p [ inl i ↦ inl (inr i) | inr e ↦ inr e ]) placed,
              ),
            )
        | inr over ↦
            let (c, returns, same) =
              add_excluded-ok x (choose token_budget total xs) {chosen = chosen}
                (ground (arith, h, natural_cost, over)) in
            let (low, high, sum, placed) =
              choose-IsChoice token_budget total xs {chosen = c} within returns in
            let no_room : token_budget < total + natural (cost_of x) = ground (arith, over) in
            subst (IsChoice token_budget total (x ∷ xs)) same (
              low,
              high,
              sum,
              (
                inr (inl refl, omega (arith, low, no_room)),
                All-map (IsPlaced token_budget c.items c.excluded c.total)
                    (IsPlaced token_budget c.items (x.id ∷ c.excluded) c.total) xs
                    (λ y p. elim p [ inl i ↦ inl i | inr (i, more) ↦ inr (inr i, more) ]) placed,
              ),
            )
      ]
    ]

All-insert_item :
    (P : ContextItem → Type 0) (x : ContextItem) (ys : List ContextItem)
    → All P (insert_item x ys)
    → P x × All P ys
unfolding insert_item
All-insert_item P x [] (h, hs) = (h, hs)
All-insert_item P x (y ∷ ys) h = elim (Bool-cases (key_leb x y)) [
  | inl less ↦
      let first : insert_item x (y ∷ ys) ≡ x ∷ (y ∷ ys) = rw less refl in subst (All P) first h
  | inr more ↦
      let later : insert_item x (y ∷ ys) ≡ y ∷ insert_item x ys = rw more refl in
      let (hy, hs) = subst (All P) later h in
      let (hx, hys) = All-insert_item P x ys hs in (hx, (hy, hys))
]

All-sorted : (P : ContextItem → Type 0) (xs : List ContextItem) → All P (sorted xs) → All P xs
All-sorted P [] h = tt
All-sorted P (x ∷ xs) h =
    let (hx, hs) = All-insert_item P x (sorted xs) h in (hx, All-sorted P xs hs)

to_selection-ok :
    (hexdigest : Payload → ℕ) (vector : Option VectorContextHint) (r : Result Chosen)
    {selection : ContextSelection}
    → to_selection hexdigest vector r ≡ ok selection
    → (c : Chosen) × (r ≡ ok c)
      × (c.items ≡ selection.selected)
      × (c.excluded ≡ selection.excluded)
      × (c.total ≡ selection.total_tokens)
to_selection-ok hexdigest vector (ok c) h =
    let same = ok-inj h in
    (c, refl, ap (λ s. s.selected) same, ap (λ s. s.excluded) same, ap (λ s. s.total_tokens) same)
to_selection-ok hexdigest vector token_budget_invalid h = absurd (ground (arith, h))
to_selection-ok hexdigest vector token_estimate_invalid h = absurd (ground (arith, h))

-- When select_context returns a selection, its total is the sum of the tokens of the selected items and within the
-- budget, and each of the given items is selected, or is excluded and does not fit in what the selected ones leave.
pub select_context-within :
    (hexdigest : Payload → ℕ) (items : List ContextItem) (token_budget : ℕ)
    (vector : Option VectorContextHint) {selection : ContextSelection}
    → select_context hexdigest items (pos token_budget) vector ≡ ok selection
    → (selection.total_tokens ≡ tokens selection.selected)
      × (selection.total_tokens ≤ token_budget)
      × All
          (IsPlaced token_budget selection.selected selection.excluded selection.total_tokens)
          items
unfolding select_context
select_context-within hexdigest items token_budget vector {selection} h =
    let (c, returns, chosen, left, total) =
      to_selection-ok hexdigest vector (choose token_budget 0 (sorted items))
        {selection = selection} h in
    let (low, high, sum, placed) =
      choose-IsChoice token_budget 0 (sorted items) {chosen = c} (omega arith) returns in
    let counted = ap tokens chosen in
    (
      omega (arith, total, sum, counted),
      omega (arith, total, high),
      All-sorted
          (IsPlaced token_budget selection.selected selection.excluded selection.total_tokens) items
          (subst
            (λ n.
              All (IsPlaced token_budget selection.selected selection.excluded n) (sorted items))
            total
            (subst (λ l. All (IsPlaced token_budget selection.selected l c.total) (sorted items))
              left
              (subst (λ l. All (IsPlaced token_budget l c.excluded c.total) (sorted items)) chosen
                placed))),
    )
