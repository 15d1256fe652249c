-- ===== src/Prelude/Order.antt =====
-- ORDER BY and `sorted`: a stable sort by insertion.
use mathlib.Core.Bool.{Bool}
use mathlib.Core.List.{List, [], ◌∷◌}
use truyenaudio_studio.Prelude.Tests.{if◌then◌else◌}

module _ {ℓ} {A : Type ℓ} where
  unfoldable pub insert_by : (A → A → Bool) → A → List A → List A
  insert_by leq x [] = x ∷ []
  insert_by leq x (y ∷ ys) =
      let rest = insert_by leq x ys in if leq x y then x ∷ (y ∷ ys) else y ∷ rest

  abbrev pub sort_by : (A → A → Bool) → List A → List A
  sort_by leq [] = []
  sort_by leq (x ∷ xs) = insert_by leq x (sort_by leq xs)
