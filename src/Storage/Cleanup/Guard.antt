-- ===== src/Storage/Cleanup/Guard.antt =====
-- CleanupService.execute: the files that it spares.
use truyenaudio_studio.Prelude.{
  ℕ, ◌≡◌, refl, sym, ap, ◌∙◌, Bool, false, ◌&&◌, Option, none, some, List, [], ◌∷◌, ◌==◌, ==_iff,
  Bool-cases, Option-cases, ◌⊎◌, inl, inr, subst, count_where, arith, find_where, All, All-find,
}
use truyenaudio_studio.Storage.Store.{PathLib, File, is_at, replace}
use truyenaudio_studio.Storage.Cleanup.Schema.{CleanupCandidate, Store}
use truyenaudio_studio.Storage.Cleanup.Rules.{file_at}
use truyenaudio_studio.Storage.Cleanup.Quarantined.{found-replace_other}
use truyenaudio_studio.Storage.Cleanup.Execute.{
  Fate, completes, delete_with_durable_audit, mark_deleted, execute_from, nothing_done, execute,
}
use truyenaudio_studio.Storage.Cleanup.Deletion.{
  IsSound, delete_file, delete_files, delete-IsSound, is_complete, delete-Raised,
}
use truyenaudio_studio.Storage.Cleanup.Loop.{IsFound, Ends-both, execute-cases, execute_from-Ends}
use truyenaudio_studio.Storage.Cleanup.Targets.{
  may_target, is_unprotected, may_delete, unprotected-mark, found-unlink_other, target_of_found,
  deletable_unprotected,
}

-- A path has the file that it had, or it had none and is a path that quarantine chooses.
abbrev pub Untouched : (ℕ → ℕ → ℕ) → ℕ → List File → List File → Type 0
Untouched quarantine p before after =
    (file_at p after ≡ file_at p before)
    ⊎ ((file_at p before ≡ none) × ((n : ℕ) × (q : ℕ) × (quarantine n q ≡ p)))

find-nothing :
    {A : Type 0} (p : A → Bool) (xs : List A) → count_where p xs ≡ 0 → find_where p xs ≡ none
unfolding count_where find_where
find-nothing p [] h = refl
find-nothing p (x ∷ xs) h = ground (arith, h, find-nothing p xs)

module _ (lib : PathLib) (sha256 : List ℕ → ℕ) where
  module _ (quarantine : ℕ → ℕ → ℕ) (fate : ℕ → Fate) (now : ℕ) where
    abbrev delete_here : ℕ → CleanupCandidate → File → Store → Option ℕ × Store
    delete_here = delete_file lib sha256 now quarantine fate

    mark-may_delete :
        (n : ℕ) (c : CleanupCandidate) (f : File) (st : Store) (d : CleanupCandidate)
        → fate n ≡ completes
        → may_delete (delete_here n c f st).1 d ≡ may_delete st d
    unfolding delete_with_durable_audit
    mark-may_delete n c f st d stored = rw stored (elim (Option-cases d.artifact_id) [
      | inl loose ↦ rw loose refl
      | inr kept ↦ rw (kept.1) (marked c.artifact_id kept.0)
    ])
      where
        marked :
            (o : Option ℕ) (id : ℕ)
            → is_unprotected st.chapters id (mark_deleted lib sha256 quarantine now o st.artifacts)
              ≡ is_unprotected st.chapters id st.artifacts
        marked none id = refl
        marked (some k) id = unprotected-mark st.chapters now id k st.artifacts

    module _ (p : ℕ) (start : Store) where
      abbrev Spared : CleanupCandidate → Type 0
      Spared c = (may_target lib c p && may_delete start c) ≡ false

      -- The path has the file that it had, or it had none and is a path in quarantine.
      abbrev IsKept : Store → Type 0
      IsKept st = Untouched quarantine p start.files st.files

      record Holds (cs : List CleanupCandidate) (st : Store) : Type 0 where
        sound : IsSound quarantine st.files
        kept : file_at p st.files ≡ file_at p start.files
        same : (d : CleanupCandidate) → may_delete st d ≡ may_delete start d
        left : All Spared cs

      target_apart :
          (c : CleanupCandidate) (cs : List CleanupCandidate) (f : File) (st : Store)
          → IsFound lib sha256 now st c f
          → Holds (c ∷ cs) st
          → (f.path == p) ≡ false
      target_apart c cs f st known held =
          let target = target_of_found lib sha256 st.files c f.path known.path in
          let allowed =
            sym (held.same c) ∙ deletable_unprotected lib sha256 now st c known.deletable in
          elim (Bool-cases (f.path == p)) [
            | inr other ↦ other
            | inl here ↦
                let hit = ap (may_target lib c) (sym ((==_iff f.path p).0 here)) ∙ target in
                absurd (ground (arith, held.left.0, hit, allowed))
          ]

      deletes :
          (n : ℕ) (c : CleanupCandidate) (cs : List CleanupCandidate) (f : File) (st : Store)
          → IsFound lib sha256 now st c f
          → fate n ≡ completes
          → Holds (c ∷ cs) st
          → Holds cs (delete_here n c f st).1
      deletes n c cs f st known stored held = record {
        sound = delete-IsSound lib sha256 now quarantine fate n c f st held.sound stored;
        kept =
            ap (file_at p) (delete_files lib sha256 now quarantine fate n c f st held.sound stored)
            ∙ found-unlink_other f.path p st.files (target_apart c cs f st known held)
            ∙ held.kept;
        same = λ d. mark-may_delete n c f st d stored ∙ held.same d;
        left = held.left.1;
      }

      moved-IsKept :
          (n : ℕ) (c : CleanupCandidate) (cs : List CleanupCandidate) (f : File) (st : Store)
          → IsFound lib sha256 now st c f
          → Holds (c ∷ cs) st
          → Untouched quarantine p start.files (replace f.path (quarantine n f.path) st.files)
      moved-IsKept n c cs f st known held =
          let q : ℕ = quarantine n f.path in
          let fresh = held.sound.free n f.path in
          elim (Bool-cases (q == p)) [
            | inr away ↦ inl (
                found-replace_other f.path q st.files fresh p (target_apart c cs f st known held)
                  away
                ∙ held.kept)
            | inl hidden ↦
                let same : q ≡ p = (==_iff q p).0 hidden in
                inr (
                  sym held.kept
                      ∙ ap (λ r. file_at r st.files) (sym same)
                      ∙ find-nothing (is_at q) st.files fresh,
                  (n, f.path, same),
                )
          ]

      raises :
          (n : ℕ) (c : CleanupCandidate) (cs : List CleanupCandidate) (f : File) (st : Store)
          → IsFound lib sha256 now st c f
          → is_complete (fate n) ≡ false
          → Holds (c ∷ cs) st
          → IsKept (delete_here n c f st).1
      raises n c cs f st known failing held =
          elim (delete-Raised lib sha256 now quarantine fate (fate n) n c f st held.sound known.file
            failing) [
              | inl nothing ↦ inl (ap (λ x. file_at p x.files) nothing ∙ held.kept)
              | inr moved ↦
                  subst (Untouched quarantine p start.files) (sym (moved.0))
                    (moved-IsKept n c cs f st known held)
            ]

      pub loop_spares :
          (cs : List CleanupCandidate)
          → IsSound quarantine start.files
          → All Spared cs
          → IsKept (execute_from lib sha256 quarantine fate 0 now cs nothing_done start).1
      loop_spares cs sound spared =
          Ends-both lib sha256 now quarantine fate (λ done. Holds []) IsKept IsKept
            (λ done st held. inl held.kept) (λ st kept. kept)
            (execute_from lib sha256 quarantine fate 0 now cs nothing_done start)
            (execute_from-Ends lib sha256 now quarantine fate (λ ds done. Holds ds) IsKept
              (λ c ds done st held. record {
                sound = held.sound;
                kept = held.kept;
                same = held.same;
                left = held.left.1;
              })
              (λ n c ds f done st known stored held. deletes n c ds f st known stored held)
              (λ n c ds f done st known failing held. raises n c ds f st known failing held) 0 cs
              nothing_done start
              record { sound = sound; kept = refl; same = λ d. refl; left = spared })

-- When no candidate of a stored plan that names the path is a partial file, a log, or the file of an artifact that is
-- neither of a protected kind nor an approved master, the file at the path is as it was after execute with any token,
-- whether it returned, refused the token or raised; only where there was no file, at a path that quarantine chooses, a
-- deletion that raised may have left one.
pub execute_spares :
    (lib : PathLib) (sha256 : List ℕ → ℕ) (quarantine : ℕ → ℕ → ℕ) (fate : ℕ → Fate)
    (now plan_id snapshot_hash p : ℕ) (st : Store)
    → IsSound quarantine st.files
    → All
        (λ plan. All (λ c. (may_target lib c p && may_delete st c) ≡ false) plan.candidates)
        st.plans
    → Untouched quarantine p st.files
        (execute lib sha256 quarantine fate now plan_id snapshot_hash st).1.files
execute_spares lib sha256 quarantine fate now plan_id snapshot_hash p st sound spared =
    elim (execute-cases lib sha256 now quarantine fate plan_id snapshot_hash st) [
      | inl refused ↦ inl (ap (λ r. file_at p r.1.files) refused)
      | inr run ↦
          subst (λ r. Untouched quarantine p st.files r.1.files) (sym run.2)
            (loop_spares lib sha256 quarantine fate now p st run.0.candidates sound (
              All-find
                (λ plan. All (λ c. (may_target lib c p && may_delete st c) ≡ false) plan.candidates)
                (λ x. x.plan_id == plan_id) st.plans spared run.1))
    ]
