-- ===== src/Storage/Cleanup/Targets.antt =====
-- Which candidates name a path, and which of them may be deleted.
use truyenaudio_studio.Prelude.{
  ℕ, ◌≡◌, refl, ap, ◌∙◌, Bool, true, false, ◌||◌, not, none, some, List, [], ◌∷◌, ◌==◌, ==_iff,
  Bool-cases, Option-cases, inl, inr, arith, opt_eq, find_where, update_where, delete_where,
}
use truyenaudio_studio.Projects.Invalidation.Schema.{deleted}
use truyenaudio_studio.Storage.Store.{PathLib, File, resolve, unlink}
use truyenaudio_studio.Storage.Cleanup.Schema.{
  CleanupCandidate, StoredFile, ChapterMaster, Store, is_loose,
}
use truyenaudio_studio.Storage.Cleanup.Rules.{
  is_protected_artifact, file_at, resolve_candidate_path, is_deletable, row_is_deletable,
}

-- The candidate names the path, with or without the folder of artifacts.
abbrev pub may_target : PathLib → CleanupCandidate → ℕ → Bool
may_target lib c p =
    opt_eq (resolve lib c.relative_path) (some p)
    || opt_eq (resolve lib (lib.under_artifacts c.relative_path)) (some p)

abbrev pub is_unprotected : List ChapterMaster → ℕ → List StoredFile → Bool
is_unprotected chapters id artifacts = elim (find_where (λ a. a.id == id) artifacts) [
  | none ↦ false
  | some row ↦ not (is_protected_artifact chapters row)
]

-- The candidate is a partial file or a log, or its artifact is neither of a protected kind nor an approved master.
abbrev pub may_delete : Store → CleanupCandidate → Bool
may_delete st c = elim c.artifact_id [
  | none ↦ is_loose c.candidate_type
  | some id ↦ is_unprotected st.chapters id st.artifacts
]

pub unprotected-mark :
    (chapters : List ChapterMaster) (now id k : ℕ) (artifacts : List StoredFile)
    → is_unprotected chapters id (
        update_where
          (λ a. a.id == k)
          (λ a. record a { status = deleted; updated_at = now })
          artifacts)
      ≡ is_unprotected chapters id artifacts
unfolding find_where update_where
unprotected-mark chapters now id k [] = refl
unprotected-mark chapters now id k (a ∷ artifacts) =
    let rest = unprotected-mark chapters now id k artifacts in
    elim (Bool-cases (a.id == k)) [
      | inl chosen ↦ rw chosen (elim (Bool-cases (a.id == id)) [
        | inl hit ↦ rw (is_unprotected, hit) refl
        | inr miss ↦ rw (is_unprotected, miss) rest
      ])
      | inr other ↦ rw other (elim (Bool-cases (a.id == id)) [
        | inl hit ↦ rw (is_unprotected, hit) refl
        | inr miss ↦ rw (is_unprotected, miss) rest
      ])
    ]

pub found-unlink_other :
    (p q : ℕ) (files : List File) → (p == q) ≡ false → file_at q (unlink p files) ≡ file_at q files
unfolding find_where delete_where
found-unlink_other p q [] apart = refl
found-unlink_other p q (f ∷ files) apart =
    let rest = found-unlink_other p q files apart in
    elim (Bool-cases (f.path == p)) [
      | inl hit ↦
          let other : (f.path == q) ≡ false = ap (λ x. x == q) ((==_iff f.path p).0 hit) ∙ apart in
          rw hit (rw other rest)
      | inr miss ↦
          rw miss
            (elim (Bool-cases (f.path == q)) [ inl here ↦ rw here refl | inr away ↦ rw away rest ])
    ]

module _ (lib : PathLib) (sha256 : List ℕ → ℕ) where
  pub target_of_found :
      (files : List File) (c : CleanupCandidate) (p : ℕ)
      → resolve_candidate_path lib sha256 files c ≡ some p
      → may_target lib c p ≡ true
  target_of_found files c p found = elim (Option-cases c.artifact_id) [
    | inl loose ↦ ground (arith, found, loose)
    | inr kept ↦ elim (Option-cases (resolve lib c.relative_path)) [
      | inl unsafe ↦ absurd (ground (arith, found, kept.1, unsafe))
      | inr first ↦ elim (Option-cases (resolve lib (lib.under_artifacts c.relative_path))) [
        | inl other ↦ ground (arith, found, kept.1, first.1, other)
        | inr second ↦ ground (arith, found, kept.1, first.1, second.1)
      ]
    ]
  ]

  pub deletable_unprotected :
      (now : ℕ) (st : Store) (c : CleanupCandidate)
      → is_deletable lib sha256 now st c ≡ true
      → may_delete st c ≡ true
  unfolding is_deletable row_is_deletable
  deletable_unprotected now st c h = elim (Option-cases c.artifact_id) [
    | inl loose ↦ ground (arith, h, loose)
    | inr kept ↦ elim (Option-cases (find_where (λ a. a.id == kept.0) st.artifacts)) [
      | inl gone ↦ absurd (ground (arith, h, kept.1, gone))
      | inr row ↦ ground (arith, h, kept.1, row.1)
    ]
  ]
