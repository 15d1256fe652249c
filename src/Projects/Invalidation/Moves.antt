-- ===== src/Projects/Invalidation/Moves.antt =====
-- A table whose rows a function switches off: what stays off, and what a loop over the selected rows leaves off.
use truyenaudio_studio.Prelude.{
  ℕ, ◌≡◌, ap, ◌∙◌, Bool, false, ◌&&◌, Option, List, [], ◌∷◌, ◌==◌, Bool-cases, inl, inr, arith,
  select_where, All, is_some,
}
use truyenaudio_studio.Prelude.Rows.Pairs.{All2, Off, Off-later, All-selected}
use truyenaudio_studio.Projects.Invalidation.Graph.{Graph, for_each}
use truyenaudio_studio.Projects.Invalidation.Later.{
  Moved, KeptOrNone, Later, Later-trans, Later-for_each,
}

module _ {A : Type 0} (key : A → ℕ) (f : A → A) (test : A → Bool)
    (off : (x : A) → test (f x) ≡ false) where
  pub Moved-off : (ids : List ℕ) (x y : A) → Moved key f ids x y → test x ≡ false → test y ≡ false
  Moved-off ids x y (inl same) down = ap test same ∙ down
  Moved-off ids x y (inr moved) down = ap test moved.0 ∙ off x

  module _ (selects : A → Bool) (same : (x : A) → selects (f x) ≡ selects x) where
    pub Moved-selects : (ids : List ℕ) (x y : A) → Moved key f ids x y → selects y ≡ selects x
    Moved-selects ids x y (inl kept) = ap selects kept
    Moved-selects ids x y (inr moved) = ap selects moved.0 ∙ same x

    pub Off-kept :
        (ids : List ℕ) (xs ys : List A)
        → All2 (Moved key f ids) xs ys
        → Off selects test xs
        → Off selects test ys
    Off-kept ids = Off-later (Moved key f ids) selects test (Moved-selects ids) (Moved-off ids)

    -- When every row that was selected and on has been switched off, no selected row is on.
    pub Off-selected :
        ((x : A) → key (f x) ≡ key x)
        → (ids : List ℕ) (xs ys : List A) → All2 (Moved key f ids) xs ys
        → All (λ x. Off (λ y. key y == key x) test ys) (select_where (λ x. selects x && test x) xs)
        → Off selects test ys
    Off-selected same_key ids xs ys rows chosen =
        All-selected (Moved key f ids) (λ x y. ((key y == key x) && test y) ≡ false)
          (λ y. (selects y && test y) ≡ false) (λ x. selects x && test x)
          (λ x y moved switched. elim (Bool-cases (test x)) [
            | inr down ↦ ground (arith, Moved-off ids x y moved down)
            | inl up ↦
                let one_row : selects y ≡ selects x = Moved-selects ids x y moved in
                let one_key : key y ≡ key x = elim moved [
                  | inl kept ↦ ap key kept
                  | inr m ↦ ap key m.0 ∙ same_key x
                ] in
                elim (Bool-cases (selects x)) [
                  | inr other ↦ ground (arith, one_row, other)
                  | inl chosen_row ↦
                      ground (arith, switched (ground (arith, up, chosen_row)), one_key)
                ]
          ])
          xs ys rows chosen

pub KeptOrNone-off : (o p : Option ℕ) → KeptOrNone o p → is_some o ≡ false → is_some p ≡ false
KeptOrNone-off o p (inl kept) h = ap is_some kept ∙ h
KeptOrNone-off o p (inr gone) h = ap is_some gone

-- What each round of a loop does, and later states keep, holds for all rounds after the loop.
module _ (now : ℕ) (start : Graph) {A : Type 0} (body : A → Graph → Graph)
    (Does : A → Graph → Type 0) where
  pub for_each_does :
      ((x : A) (g : Graph) → Later now g (body x g))
      → ((x : A) (g h : Graph) → Later now g h → Does x g → Does x h)
      → ((x : A) (g : Graph) → Later now start g → Does x (body x g))
      → (xs : List A) (g : Graph) → Later now start g
      → All (λ x. Does x (for_each body xs g)) xs
  for_each_does step keeps does [] g later = tt
  for_each_does step keeps does (x ∷ xs) g later = (
    keeps x (body x g) (for_each body xs (body x g)) (Later-for_each now body step xs (body x g))
        (does x g later),
    for_each_does step keeps does xs (body x g)
        (Later-trans now start g (body x g) later (step x g)),
  )
