-- ===== src/Storage/Cleanup/Quarantined.antt =====
-- A file that was moved to a free path and is still there.
use truyenaudio_studio.Prelude.{
  ℕ, ◌≡◌, refl, ap, ◌∙◌, true, false, some, List, [], ◌∷◌, ◌==◌, ==_iff, Bool-cases, inl, inr,
  arith, find_where, update_where, count_where,
}
use truyenaudio_studio.Storage.Store.{File, is_at, rename, replace, total_bytes}
use truyenaudio_studio.Storage.Cleanup.Account.{replace_free}

total_bytes-rename :
    (p q : ℕ) (files : List File)
    → total_bytes (update_where (is_at p) (rename q) files) ≡ total_bytes files
unfolding total_bytes update_where
total_bytes-rename p q [] = refl
total_bytes-rename p q (f ∷ files) = ground (arith, total_bytes-rename p q files)

found-rename_new :
    (p q : ℕ) (files : List File) {f : File}
    → count_where (is_at q) files ≡ 0
    → find_where (is_at p) files ≡ some f
    → find_where (is_at q) (update_where (is_at p) (rename q) files) ≡ some (rename q f)
unfolding find_where update_where count_where
found-rename_new p q [] fresh found = cc
found-rename_new p q (g ∷ files) {f} fresh found = elim (Bool-cases (g.path == p)) [
  | inl hit ↦
      let same : (q == q) ≡ true = ground arith in
      let it : g ≡ f = ground (arith, found, hit) in
      rw hit (rw same (ap (λ x. some (rename q x)) it))
  | inr miss ↦
      let far : (g.path == q) ≡ false = ground (arith, fresh) in
      rw miss (
        rw far (
          found-rename_new p q files {f = f} (ground (arith, fresh)) (ground (arith, found, miss))))
]

found-rename_other :
    (p q r : ℕ) (files : List File)
    → (p == r) ≡ false
    → (q == r) ≡ false
    → find_where (is_at r) (update_where (is_at p) (rename q) files) ≡ find_where (is_at r) files
unfolding find_where update_where
found-rename_other p q r [] h k = refl
found-rename_other p q r (g ∷ files) h k =
    let rest = found-rename_other p q r files h k in
    elim (Bool-cases (g.path == p)) [
      | inl hit ↦
          let other : (g.path == r) ≡ false = ap (λ x. x == r) ((==_iff g.path p).0 hit) ∙ h in
          rw hit (rw k (rw other rest))
      | inr miss ↦
          rw miss
            (elim (Bool-cases (g.path == r)) [ inl here ↦ rw here refl | inr away ↦ rw away rest ])
    ]

module _ (p q : ℕ) (files : List File) (fresh : count_where (is_at q) files ≡ 0) where
  pub total_bytes-replace : total_bytes (replace p q files) ≡ total_bytes files
  total_bytes-replace = ap total_bytes (replace_free p q files fresh) ∙ total_bytes-rename p q files

  pub found-replace :
      {f : File}
      → find_where (is_at p) files ≡ some f
      → find_where (is_at q) (replace p q files) ≡ some (rename q f)
  found-replace {f} found =
      ap (find_where (is_at q)) (replace_free p q files fresh)
      ∙ found-rename_new p q files {f = f} fresh found

  pub found-replace_other :
      (r : ℕ)
      → (p == r) ≡ false
      → (q == r) ≡ false
      → find_where (is_at r) (replace p q files) ≡ find_where (is_at r) files
  found-replace_other r h k =
      ap (find_where (is_at r)) (replace_free p q files fresh) ∙ found-rename_other p q r files h k
