-- ===== src/Prelude/Rows/Laws.antt =====
-- What the statements over a table do to counts, to distinctness and to a property of every row.
use truyenaudio_studio.Prelude.Tests.{if◌then◌else◌, Bool-cases}
use Prim.Native.Nat.{◌+◌, ◌≤◌}
use mathlib.Core.Path.{◌≡◌, refl, sym, ap, ◌∙◌, subst}
use mathlib.Core.Logic.{inl, inr}
use mathlib.Core.Option.{some, none}
use mathlib.Core.Bool.{Bool, true, false, ◌&&◌}
use mathlib.Core.List.{List, [], ◌∷◌, ◌++◌}
use native.Mathlib.Omega.{arith}
use truyenaudio_studio.Prelude.Rows.Defs.{update_where, count_where, find_where, All}

module _ {ℓ} {A : Type ℓ} where
  pub count-append :
      (q : A → Bool) (xs ys : List A)
      → count_where q (xs ++ ys) ≡ count_where q xs + count_where q ys
  unfolding count_where
  count-append q [] ys = omega arith
  count-append q (x ∷ xs) ys = omega (arith, count-append q xs ys)

  -- An update that does not change the test does not change its count.
  pub count-update :
      (q p : A → Bool) (f : A → A) (xs : List A)
      → ((x : A) → q (f x) ≡ q x)
      → count_where q (update_where p f xs) ≡ count_where q xs
  unfolding count_where update_where
  count-update q p f [] same = refl
  count-update q p f (x ∷ xs) same = ground (arith, same x, count-update q p f xs same)

  -- An update that falsifies the test on what it writes.
  pub count-update_off :
      (q p : A → Bool) (f : A → A) (xs : List A)
      → ((x : A) → q (f x) ≡ false)
      → count_where q (update_where p f xs) + count_where (λ x. p x && q x) xs ≡ count_where q xs
  unfolding count_where update_where
  count-update_off q p f [] off = omega arith
  count-update_off q p f (x ∷ xs) off = ground (arith, off x, count-update_off q p f xs off)

  pub count_ext :
      (p q : A → Bool) (xs : List A) → ((x : A) → p x ≡ q x) → count_where p xs ≡ count_where q xs
  unfolding count_where
  count_ext p q [] h = refl
  count_ext p q (x ∷ xs) h = ground (arith, h x, count_ext p q xs h)

  pub count_le :
      (p q : A → Bool) (xs : List A)
      → ((x : A) → p x ≡ true → q x ≡ true)
      → count_where p xs ≤ count_where q xs
  unfolding count_where
  count_le p q [] h = omega arith
  count_le p q (x ∷ xs) h = ground (arith, h x, count_le p q xs h)

  pub count_nothing : (p : A → Bool) (xs : List A) → ((x : A) → p x ≡ false) → count_where p xs ≡ 0
  unfolding count_where
  count_nothing p [] h = refl
  count_nothing p (x ∷ xs) h = ground (arith, h x, count_nothing p xs h)

  pub update_nothing : (f : A → A) (xs : List A) → update_where (λ x. false) f xs ≡ xs
  unfolding update_where
  update_nothing f [] = refl
  update_nothing f (x ∷ xs) = rw (update_nothing f xs)

  -- No two rows are the same.
  abbrev pub Distinct : (A → A → Bool) → List A → Type 0
  Distinct same [] = Unit
  Distinct same (x ∷ xs) = (count_where (same x) xs ≡ 0) × Distinct same xs

  pub Distinct-update :
      (same : A → A → Bool) (p : A → Bool) (f : A → A) (xs : List A)
      → ((x y : A) → same (f x) y ≡ same x y)
      → ((x y : A) → same x (f y) ≡ same x y)
      → Distinct same xs
      → Distinct same (update_where p f xs)
  unfolding update_where
  Distinct-update same p f [] hl hr d = tt
  Distinct-update same p f (x ∷ xs) hl hr d = (
    ground (
      arith,
      count_ext (same (f x)) (same x) xs (hl x),
      count-update (same x) p f xs (hr x),
      count-update (same (f x)) p f xs (hr (f x)),
    ),
    Distinct-update same p f xs hl hr d.1,
  )

  pub Distinct-append :
      (same : A → A → Bool) (xs : List A) (y : A)
      → ((x : A) → same x y ≡ same y x)
      → count_where (same y) xs ≡ 0
      → Distinct same xs
      → Distinct same (xs ++ y ∷ [])
  unfolding count_where
  Distinct-append same [] y sym_y none_same d = (refl, tt)
  Distinct-append same (x ∷ xs) y sym_y none_same d = (
    ground (arith, sym_y x, count-append (same x) xs (y ∷ [])),
    Distinct-append same xs y sym_y (ground arith) d.1,
  )

module _ {ℓ κ μ} {A : Type ℓ} (P : A → Type κ) (Q : A → Type μ) where
  pub All-map : (xs : List A) → ((x : A) → P x → Q x) → All P xs → All Q xs
  All-map [] h a = tt
  All-map (x ∷ xs) h a = (h x a.0, All-map xs h a.1)

  pub All-update :
      (p : A → Bool) (f : A → A) (xs : List A)
      → ((x : A) → P x → Q (if p x then f x else x))
      → All P xs
      → All Q (update_where p f xs)
  unfolding update_where
  All-update p f [] h a = tt
  All-update p f (x ∷ xs) h a = (h x a.0, All-update p f xs h a.1)

module _ {ℓ κ} {A : Type ℓ} (P : A → Type κ) where
  pub All-append : (xs : List A) (y : A) → All P xs → P y → All P (xs ++ y ∷ [])
  All-append [] y a h = (h, tt)
  All-append (x ∷ xs) y a h = (a.0, All-append xs y a.1 h)

  pub All-append_rows : (xs ys : List A) → All P xs → All P ys → All P (xs ++ ys)
  All-append_rows [] ys a b = b
  All-append_rows (x ∷ xs) ys a b = (a.0, All-append_rows xs ys a.1 b)

module _ {A : Type 0} (P : A → Type 0) (p : A → Bool) where
  pub All-find : (xs : List A) {x : A} → All P xs → find_where p xs ≡ some x → P x
  unfolding find_where
  All-find [] all h = cc
  All-find (y ∷ xs) {x} all h = elim (Bool-cases (p y)) [
    | inl hit ↦ subst P (ground (arith, h, hit)) all.0
    | inr miss ↦ All-find xs {x = x} all.1 (ground (arith, h, miss))
  ]

module _ {ℓ κ μ} {A : Type ℓ} (P : A → Type κ) (Q : A → Type μ) where
  pub All-zip : (xs : List A) → All P xs → All Q xs → All (λ x. P x × Q x) xs
  All-zip [] a b = tt
  All-zip (x ∷ xs) a b = ((a.0, b.0), All-zip xs a.1 b.1)

module _ {A : Type 0} (p : A → Bool) where
  pub find_where_found : (xs : List A) {x : A} → find_where p xs ≡ some x → p x ≡ true
  unfolding find_where
  find_where_found [] h = cc
  find_where_found (y ∷ ys) {x} h = elim (Bool-cases (p y)) [
    | inl hit ↦ let same : y ≡ x = ground (arith, h, hit) in sym (ap p same) ∙ hit
    | inr miss ↦ find_where_found ys {x = x} (ground (arith, h, miss))
  ]

  -- A row that is the first to pass the test is found where it was added.
  pub find_where-append :
      (xs : List A) (x : A)
      → find_where p xs ≡ none
      → p x ≡ true
      → find_where p (xs ++ x ∷ []) ≡ some x
  unfolding find_where
  find_where-append [] x h hit = rw hit refl
  find_where-append (y ∷ ys) x h hit = elim (Bool-cases (p y)) [
    | inl found ↦ absurd (ground (arith, h, found))
    | inr miss ↦ rw miss (find_where-append ys x (ground (arith, h, miss)) hit)
  ]

  -- The row that is found is found again after an update of it that keeps the test.
  pub find_where-update :
      (q : A → Bool) (f : A → A) (xs : List A) {x : A}
      → ((y : A) → p (f y) ≡ p y)
      → find_where p xs ≡ some x
      → q x ≡ true
      → find_where p (update_where q f xs) ≡ some (f x)
  unfolding find_where update_where
  find_where-update q f [] keeps h hit = cc
  find_where-update q f (y ∷ ys) {x} keeps h hit = elim (Bool-cases (p y)) [
    | inl found ↦
        let same : y ≡ x = ground (arith, h, found) in
        let chosen : q y ≡ true = ap q same ∙ hit in
        rw chosen (rw (keeps y ∙ found) (ap (λ z. some (f z)) same))
    | inr miss ↦
        let rest = find_where-update q f ys {x = x} keeps (ground (arith, h, miss)) hit in
        elim (Bool-cases (q y)) [
          | inl chosen ↦ rw chosen (rw (keeps y ∙ miss) rest)
          | inr other ↦ rw other (rw miss rest)
        ]
  ]
