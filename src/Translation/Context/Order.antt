-- ===== src/Translation/Context/Order.antt =====
-- The selection does not depend on the order in which the items are given.
use mathlib.Core.List.{Permᴰ}
use truyenaudio_studio.Prelude.{
  ℕ, ◌≡◌, refl, sym, ap, ◌∙◌, subst, true, false, Option, List, [], ◌∷◌, All, arith, Bool-cases,
  inl, inr,
}
use truyenaudio_studio.Prelude.Int.{ℤ, pos, negsuc}
use truyenaudio_studio.Translation.Context.{
  ContextItem, VectorContextHint, Payload, key_leb, insert_item, sorted, choose, select_context,
  to_selection,
}

-- The item of a priority and an identifier.
abbrev pub IsKnown : (ℕ → ℕ → ContextItem) → ContextItem → Type 0
IsKnown item_of x = item_of x.priority x.id ≡ x

known-same :
    (item_of : ℕ → ℕ → ContextItem) (x y : ContextItem)
    → IsKnown item_of x
    → IsKnown item_of y
    → x.priority ≡ y.priority
    → x.id ≡ y.id
    → x ≡ y
known-same item_of x y hx hy p q =
    sym hx ∙ ap (λ n. item_of n x.id) p ∙ ap (item_of y.priority) q ∙ hy

key_leb-total : (x y : ContextItem) → key_leb x y ≡ false → key_leb y x ≡ true
unfolding key_leb
key_leb-total x y h = ground (arith, h)

key_leb-behind :
    (x y z : ContextItem) → key_leb x y ≡ true → key_leb x z ≡ false → key_leb y z ≡ false
unfolding key_leb
key_leb-behind x y z h k = ground (arith, h, k)

key_leb-antisym :
    (x y : ContextItem)
    → key_leb x y ≡ true
    → key_leb y x ≡ true
    → (x.priority ≡ y.priority) × (x.id ≡ y.id)
unfolding key_leb
key_leb-antisym x y h k = (ground (arith, h, k), ground (arith, h, k))

-- Two items of which the first key is strictly less.
insert-swap_less :
    (x y : ContextItem) (zs : List ContextItem)
    → key_leb x y ≡ true
    → key_leb y x ≡ false
    → insert_item x (insert_item y zs) ≡ insert_item y (insert_item x zs)
unfolding insert_item
insert-swap_less x y [] less more = rw less (rw more refl)
insert-swap_less x y (z ∷ zs) less more = elim (Bool-cases (key_leb x z)) [
  | inl xz ↦ elim (Bool-cases (key_leb y z)) [
    | inl yz ↦ ground (arith, less, more, xz, yz)
    | inr zy ↦ ground (arith, less, more, xz, zy)
  ]
  | inr zx ↦
      let zy = key_leb-behind x y z less zx in
      ground (arith, zx, zy, insert-swap_less x y zs less more)
]

insert-swap :
    (x y : ContextItem) (zs : List ContextItem)
    → (x.priority ≡ y.priority → x.id ≡ y.id → x ≡ y)
    → insert_item x (insert_item y zs) ≡ insert_item y (insert_item x zs)
insert-swap x y zs h = elim (Bool-cases (key_leb x y)) [
  | inr more ↦ sym (insert-swap_less y x zs (key_leb-total x y more) more)
  | inl less ↦ elim (Bool-cases (key_leb y x)) [
    | inr more ↦ insert-swap_less x y zs less more
    | inl also ↦
        let (p, q) = key_leb-antisym x y less also in
        let same = h p q in
        ap (λ w. insert_item w (insert_item y zs)) same
        ∙ ap (λ w. insert_item y (insert_item w zs)) (sym same)
  ]
]

sorted-Known :
    (item_of : ℕ → ℕ → ContextItem) {xs ys : List ContextItem}
    → Permᴰ xs ys
    → All (IsKnown item_of) xs
    → All (IsKnown item_of) ys × (sorted xs ≡ sorted ys)
sorted-Known item_of Permᴰ.nil h = (tt, refl)
sorted-Known item_of (Permᴰ.cons {a} {b} {l₁} {l₂} e p) (h, hs) =
    let (ks, same) = sorted-Known item_of p hs in
    (
      (subst (IsKnown item_of) e h, ks),
      ap (insert_item a) same ∙ ap (λ w. insert_item w (sorted l₂)) e,
    )
sorted-Known item_of (Permᴰ.swap {a} {b} {a'} {b'} {l} e f) (ha, (hb, hs)) = (
  (subst (IsKnown item_of) f hb, (subst (IsKnown item_of) e ha, hs)),
  insert-swap a b (sorted l) (known-same item_of a b ha hb)
      ∙ ap (λ w. insert_item b (insert_item w (sorted l))) e
      ∙ ap (λ w. insert_item w (insert_item b' (sorted l))) f,
)
sorted-Known item_of (Permᴰ.trans p q) h =
    let (hs, same) = sorted-Known item_of p h in
    let (ks, last) = sorted-Known item_of q hs in (ks, same ∙ last)

-- When the items with the same priority and identifier are the same, select_context gives the same selection, total,
-- digest or error for any two orders of the items.
pub select_context-perm :
    (hexdigest : Payload → ℕ) (item_of : ℕ → ℕ → ContextItem) {xs ys : List ContextItem}
    (token_budget : ℤ) (vector : Option VectorContextHint)
    → All (IsKnown item_of) xs
    → Permᴰ xs ys
    → select_context hexdigest xs token_budget vector
      ≡ select_context hexdigest ys token_budget vector
unfolding select_context
select_context-perm hexdigest item_of (negsuc n) vector h p = refl
select_context-perm hexdigest item_of (pos n) vector h p =
    ap (λ items. to_selection hexdigest vector (choose n 0 items)) ((sorted-Known item_of p h).1)
