-- ===== src/Prelude/Sets.antt =====
-- A set of identifiers as the ordered list of its members.
use Prim.Native.Nat.{ℕ}
use mathlib.Core.Path.{◌≡◌, refl}
use mathlib.Core.Bool.{Bool, false, ◌||◌}
use mathlib.Core.Option.{Option, none, some}
use mathlib.Core.List.{List, [], ◌∷◌}
use native.Mathlib.Omega.{arith}
use truyenaudio_studio.Prelude.Tests.{ltb, ◌==◌, if◌then◌else◌}

unfoldable pub is_in : ℕ → List ℕ → Bool
is_in x [] = false
is_in x (y ∷ ys) = y == x || is_in x ys

unfoldable pub add_id : ℕ → List ℕ → List ℕ
add_id x [] = x ∷ []
add_id x (y ∷ ys) =
    let rest = add_id x ys in if ltb x y then x ∷ (y ∷ ys) else if x == y then y ∷ ys else y ∷ rest

-- A column IN the set: NULL is in none.
abbrev pub is_in_opt : Option ℕ → List ℕ → Bool
is_in_opt none ids = false
is_in_opt (some id) ids = is_in id ids

pub is_in-add_id : (x y : ℕ) (ys : List ℕ) → is_in x (add_id y ys) ≡ (y == x || is_in x ys)
unfolding is_in add_id
is_in-add_id x y [] = refl
is_in-add_id x y (z ∷ zs) = ground (arith, is_in-add_id x y zs)
