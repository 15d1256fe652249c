-- ===== src/Storage/Cleanup/Account.antt =====
-- What the moves of a deletion do to the files and to their number of bytes.
use truyenaudio_studio.Prelude.{
  ℕ, ◌+◌, ◌≤◌, ◌≡◌, refl, sym, ap, ◌∙◌, Bool, true, false, ◌&&◌, some, List, [], ◌∷◌, ◌==◌, ==_iff,
  if◌then◌else◌, Bool-cases, inl, inr, arith, find_where, update_where, delete_where, count_where,
  is_none, is_some,
}
use truyenaudio_studio.Prelude.Lists.{length}
use truyenaudio_studio.Storage.Store.{File, is_at, rename, replace, unlink, total_bytes}

pub delete_nothing :
    {A : Type 0} (p : A → Bool) (xs : List A) → count_where p xs ≡ 0 → delete_where p xs ≡ xs
unfolding count_where delete_where
delete_nothing p [] h = refl
delete_nothing p (x ∷ xs) h = elim (Bool-cases (p x)) [
  | inl hit ↦ absurd (ground (arith, h, hit))
  | inr miss ↦ rw (miss, delete_nothing p xs (ground (arith, h, miss))) refl
]

-- A file that was moved to a free path and unlinked there is deleted.
pub unlink-update :
    (p q : ℕ) (files : List File)
    → count_where (is_at q) files ≡ 0
    → unlink q (update_where (is_at p) (rename q) files) ≡ unlink p files
unfolding count_where delete_where update_where
unlink-update p q [] fresh = refl
unlink-update p q (f ∷ files) fresh =
    let rest = unlink-update p q files (ground (arith, fresh)) in
    let far : (f.path == q) ≡ false = ground (arith, fresh) in
    let same : (q == q) ≡ true = ground arith in
    elim (Bool-cases (f.path == p)) [
      | inl hit ↦ rw hit (rw same rest)
      | inr miss ↦ rw miss (rw far (ap (λ fs. f ∷ fs) rest))
    ]

-- A file that was moved to a free path and back is where it was.
pub update-update :
    (p q : ℕ) (files : List File)
    → (p == q) ≡ false
    → count_where (is_at q) files ≡ 0
    → update_where
        (is_at q)
        (rename p)
        (delete_where (is_at p) (update_where (is_at p) (rename q) files))
      ≡ files
unfolding count_where delete_where update_where
update-update p q [] apart fresh = refl
update-update p q (f ∷ files) apart fresh =
    let rest = update-update p q files apart (ground (arith, fresh)) in
    let far : (f.path == q) ≡ false = ground (arith, fresh) in
    let other : (q == p) ≡ false = ground (arith, apart) in
    let same : (q == q) ≡ true = ground arith in
    elim (Bool-cases (f.path == p)) [
      | inl hit ↦
          let home : rename p f ≡ f = ap (λ x. rename x f) (sym ((==_iff f.path p).0 hit)) in
          rw hit (rw other (rw same (ap (λ fs. rename p f ∷ fs) rest ∙ ap (λ g. g ∷ files) home)))
      | inr miss ↦ rw miss (rw miss (rw far (ap (λ fs. f ∷ fs) rest)))
    ]

pub total_bytes-unlink :
    (p : ℕ) (files : List File) {f : File}
    → find_where (is_at p) files ≡ some f
    → count_where (is_at p) files ≤ 1
    → total_bytes (unlink p files) + length f.content ≡ total_bytes files
unfolding count_where delete_where find_where total_bytes
total_bytes-unlink p [] found one = cc
total_bytes-unlink p (g ∷ files) {f} found one = elim (Bool-cases (g.path == p)) [
  | inl hit ↦
      let same : g ≡ f = ground (arith, found, hit) in
      let none_left : unlink p files ≡ files =
        delete_nothing (is_at p) files (ground (arith, one, hit)) in
      rw hit (omega (arith, ap total_bytes none_left, ap (λ x. length x.content) same))
  | inr miss ↦
      let rest =
        total_bytes-unlink p files {f = f} (ground (arith, found, miss))
          (ground (arith, one, miss)) in
      rw miss (omega (arith, rest))
]

pub count-delete :
    {A : Type 0} (q p : A → Bool) (xs : List A)
    → count_where q (delete_where p xs) ≤ count_where q xs
unfolding count_where delete_where
count-delete q p [] = omega arith
count-delete q p (x ∷ xs) = ground (arith, count-delete q p xs)

pub count-unlink_other :
    (p q : ℕ) (files : List File)
    → (p == q) ≡ false
    → count_where (is_at q) (unlink p files) ≡ count_where (is_at q) files
unfolding count_where delete_where
count-unlink_other p q [] apart = refl
count-unlink_other p q (f ∷ files) apart = ground (arith, apart, count-unlink_other p q files apart)

found-count :
    {A : Type 0} (p : A → Bool) (xs : List A) {x : A}
    → find_where p xs ≡ some x
    → count_where p xs ≡ 0
    → ⊥
unfolding count_where find_where
found-count p [] found h = cc
found-count p (y ∷ xs) {x} found h = elim (Bool-cases (p y)) [
  | inl hit ↦ ground (arith, h, hit)
  | inr miss ↦ found-count p xs {x = x} (ground (arith, found, miss)) (ground (arith, h, miss))
]

found-rename :
    (p q : ℕ) (files : List File) {f : File}
    → find_where (is_at p) files ≡ some f
    → is_some (find_where (is_at q) (update_where (is_at p) (rename q) files)) ≡ true
unfolding find_where update_where
found-rename p q [] found = cc
found-rename p q (g ∷ files) {f} found = elim (Bool-cases (g.path == p)) [
  | inl hit ↦ let same : (q == q) ≡ true = ground arith in rw hit (rw same refl)
  | inr miss ↦
      let rest = found-rename p q files {f = f} (ground (arith, found, miss)) in
      rw miss (elim (Bool-cases (g.path == q)) [
        | inl there ↦ rw there refl
        | inr elsewhere ↦ rw elsewhere rest
      ])
]

left-rename :
    (p q : ℕ) (files : List File)
    → (p == q) ≡ false
    → is_none (find_where (is_at p) (update_where (is_at p) (rename q) files)) ≡ true
unfolding find_where update_where
left-rename p q [] apart = refl
left-rename p q (g ∷ files) apart =
    let other : (q == p) ≡ false = ground (arith, apart) in
    elim (Bool-cases (g.path == p)) [
      | inl hit ↦ rw hit (rw other (left-rename p q files apart))
      | inr miss ↦ rw miss (rw miss (left-rename p q files apart))
    ]

module _ (p q : ℕ) (files : List File) (fresh : count_where (is_at q) files ≡ 0) where
  pub replace_free : replace p q files ≡ update_where (is_at p) (rename q) files
  replace_free = ap (update_where (is_at p) (rename q)) (delete_nothing (is_at q) files fresh)

  pub unlink-replace : unlink q (replace p q files) ≡ unlink p files
  unlink-replace = ap (unlink q) replace_free ∙ unlink-update p q files fresh

  -- The file that the rollback finds in quarantine is put back.
  pub restore :
      {f : File}
      → find_where (is_at p) files ≡ some f
      → (if is_some (find_where (is_at q) (replace p q files))
            && is_none (find_where (is_at p) (replace p q files))
          then replace q p (replace p q files)
          else replace p q files)
        ≡ files
  restore {f} found =
      let apart : (p == q) ≡ false = elim (Bool-cases (p == q)) [
        | inr other ↦ other
        | inl same ↦ absurd (
            found-count (is_at p) files {x = f} found
              (ap (λ r. count_where (is_at r) files) ((==_iff p q).0 same) ∙ fresh))
      ] in
      rw (replace_free, found-rename p q files {f = f} found, left-rename p q files apart)
        (update-update p q files apart fresh)
