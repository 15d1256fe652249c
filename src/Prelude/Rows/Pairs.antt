-- ===== src/Prelude/Rows/Pairs.antt =====
-- Two states of a table, row by row: what a later state keeps of an earlier one.
use truyenaudio_studio.Prelude.Tests.{if◌then◌else◌, Bool-cases}
use mathlib.Core.Path.{◌≡◌, subst}
use mathlib.Core.Logic.{inl, inr}
use mathlib.Core.Bool.{Bool, true, false, ◌&&◌}
use mathlib.Core.List.{List, [], ◌∷◌}
use native.Mathlib.Omega.{arith}
use truyenaudio_studio.Prelude.Rows.Defs.{update_where, select_where, All}
use truyenaudio_studio.Prelude.Rows.Laws.{All-map}

-- The rows at the same position are related, and there are as many of them.
abbrev pub All2 : {A : Type 0} → (A → A → Type 0) → List A → List A → Type 0
All2 R [] [] = Unit
All2 R [] (y ∷ ys) = ⊥
All2 R (x ∷ xs) [] = ⊥
All2 R (x ∷ xs) (y ∷ ys) = R x y × All2 R xs ys

-- No selected row passes the test.
abbrev pub Off : {A : Type 0} → (A → Bool) → (A → Bool) → List A → Type 0
Off selects test xs = All (λ x. (selects x && test x) ≡ false) xs

module _ {A : Type 0} where
  pub All2-refl : (R : A → A → Type 0) → ((x : A) → R x x) → (xs : List A) → All2 R xs xs
  All2-refl R same [] = tt
  All2-refl R same (x ∷ xs) = (same x, All2-refl R same xs)

  pub All2-trans :
      (R S T : A → A → Type 0)
      → ((x y z : A) → R x y → S y z → T x z)
      → (xs ys zs : List A) → All2 R xs ys
      → All2 S ys zs
      → All2 T xs zs
  All2-trans R S T step [] [] [] a b = tt
  All2-trans R S T step [] [] (z ∷ zs) a b = b
  All2-trans R S T step [] (y ∷ ys) zs a b = absurd a
  All2-trans R S T step (x ∷ xs) [] zs a b = absurd a
  All2-trans R S T step (x ∷ xs) (y ∷ ys) [] a b = b
  All2-trans R S T step (x ∷ xs) (y ∷ ys) (z ∷ zs) a b =
      (step x y z a.0 b.0, All2-trans R S T step xs ys zs a.1 b.1)

  pub All2-update :
      (R : A → A → Type 0) (p : A → Bool) (f : A → A)
      → ((x : A) → R x x)
      → ((x : A) → p x ≡ true → R x (f x))
      → (xs : List A) → All2 R xs (update_where p f xs)
  unfolding update_where
  All2-update R p f same moved [] = tt
  All2-update R p f same moved (x ∷ xs) = (
    elim (Bool-cases (p x)) [ inl hit ↦ rw hit (moved x hit) | inr miss ↦ rw miss (same x) ],
    All2-update R p f same moved xs,
  )

  pub Off-later :
      (R : A → A → Type 0) (selects test : A → Bool)
      → ((x y : A) → R x y → selects y ≡ selects x)
      → ((x y : A) → R x y → test x ≡ false → test y ≡ false)
      → (xs ys : List A) → All2 R xs ys
      → Off selects test xs
      → Off selects test ys
  Off-later R selects test same down [] [] a off = tt
  Off-later R selects test same down [] (y ∷ ys) a off = absurd a
  Off-later R selects test same down (x ∷ xs) [] a off = tt
  Off-later R selects test same down (x ∷ xs) (y ∷ ys) a off = (
    elim (Bool-cases (test x)) [
      | inl up ↦ ground (arith, up, off.0, same x y a.0)
      | inr low ↦ ground (arith, down x y a.0 low)
    ],
    Off-later R selects test same down xs ys a.1 off.1,
  )

  pub Off-update :
      (selects test : A → Bool) (f : A → A)
      → ((x : A) → test (f x) ≡ false)
      → (xs : List A) → Off selects test (update_where selects f xs)
  unfolding update_where
  Off-update selects test f off [] = tt
  Off-update selects test f off (x ∷ xs) = (
    elim (Bool-cases (selects x)) [
      | inl hit ↦ rw hit (ground (arith, off x))
      | inr miss ↦ rw miss (ground (arith, miss))
    ],
    Off-update selects test f off xs,
  )

  -- What holds between each selected row of the first state and all rows of the second holds on the diagonal.
  pub All-selected :
      (R S : A → A → Type 0) (Q : A → Type 0) (p : A → Bool)
      → ((x y : A) → R x y → (p x ≡ true → S x y) → Q y)
      → (xs ys : List A) → All2 R xs ys
      → All (λ x. All (λ y. S x y) ys) (select_where p xs)
      → All Q ys
  unfolding select_where
  All-selected R S Q p use_row [] [] a sel = tt
  All-selected R S Q p use_row [] (y ∷ ys) a sel = absurd a
  All-selected R S Q p use_row (x ∷ xs) [] a sel = tt
  All-selected R S Q p use_row (x ∷ xs) (y ∷ ys) a sel =
      let picked : Bool → List A = λ b. if b then x ∷ select_where p xs else select_where p xs in
      let rest : All (λ z. All (λ w. S z w) ys) (select_where p xs) → All Q ys =
        All-selected R S Q p use_row xs ys a.1 in
      let shorter : (zs : List A)
          → All (λ z. All (λ w. S z w) (y ∷ ys)) zs
          → All (λ z. All (λ w. S z w) ys) zs =
        λ zs.
          All-map (λ z. All (λ w. S z w) (y ∷ ys)) (λ z. All (λ w. S z w) ys) zs (λ z all. all.1) in
      elim (Bool-cases (p x)) [
        | inl hit ↦
            let both = subst (λ b. All (λ z. All (λ w. S z w) (y ∷ ys)) (picked b)) hit sel in
            (use_row x y a.0 (λ _. both.0.0), rest (shorter (select_where p xs) both.1))
        | inr miss ↦
            let both = subst (λ b. All (λ z. All (λ w. S z w) (y ∷ ys)) (picked b)) miss sel in
            (
              use_row x y a.0 (λ hit. absurd (ground (arith, hit, miss))),
              rest (shorter (select_where p xs) both),
            )
      ]
