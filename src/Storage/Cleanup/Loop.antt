-- ===== src/Storage/Cleanup/Loop.antt =====
-- The loop of CleanupService.execute: what its rounds keep.
use truyenaudio_studio.Prelude.{
  ℕ, suc, ◌+◌, ◌≡◌, refl, sym, ap, ◌∙◌, subst, true, false, Option, none, some, List, [], ◌∷◌, ◌++◌,
  ◌==◌, ==_iff, Bool-cases, Option-cases, ◌⊎◌, inl, inr, arith, find_where, find_where_found,
}
use truyenaudio_studio.Prelude.Lists.{length}
use truyenaudio_studio.Storage.Store.{PathLib, File, is_at}
use truyenaudio_studio.Storage.Cleanup.Schema.{
  CleanupCandidate, CleanupPlan, Store, Progress, stale,
}
use truyenaudio_studio.Storage.Cleanup.Rules.{
  file_at, resolve_candidate_path, is_deletable, candidate_deletable_path,
}
use truyenaudio_studio.Storage.Cleanup.Execute.{
  Fate, completes, execute_from, execute_plan, execute,
}
use truyenaudio_studio.Storage.Cleanup.Deletion.{
  is_complete, is_complete_lem, delete_file, delete_stored, delete-none,
}

module _ (lib : PathLib) (sha256 : List ℕ → ℕ) (now : ℕ) where
  -- What is known of the file of a candidate that may be deleted.
  pub record IsFound (st : Store) (c : CleanupCandidate) (f : File) : Type 0 where
    pub path : resolve_candidate_path lib sha256 st.files c ≡ some f.path
    pub file : file_at f.path st.files ≡ some f
    pub deletable : is_deletable lib sha256 now st c ≡ true

  pub candidate_deletable_path-IsFound :
      (st : Store) (c : CleanupCandidate) (f : File)
      → candidate_deletable_path lib sha256 now st c ≡ some f
      → IsFound st c f
  unfolding candidate_deletable_path
  candidate_deletable_path-IsFound st c f found =
      elim (Option-cases (resolve_candidate_path lib sha256 st.files c)) [
        | inl unsafe ↦ absurd (ground (arith, found, unsafe))
        | inr at ↦ elim (Option-cases (file_at at.0 st.files)) [
          | inl gone ↦ absurd (ground (arith, found, at.1, gone))
          | inr file ↦
              let same : file.0 ≡ f = ground (arith, found, at.1, file.1) in
              let here : at.0 ≡ f.path =
                sym ((==_iff file.0.path at.0).0 (find_where_found (is_at at.0) st.files file.1))
                ∙ ap (λ x. x.path) same in
              record {
                path = at.1 ∙ ap some here;
                file = ap (λ p. file_at p st.files) (sym here) ∙ file.1 ∙ ap some same;
                deletable = ground (arith, found, at.1, file.1);
              }
        ]
      ]

  module _ (quarantine : ℕ → ℕ → ℕ) (fate : ℕ → Fate) where
    -- `execute` refuses the token and changes nothing, or runs the stored plan.
    pub execute-cases :
        (plan_id snapshot_hash : ℕ) (st : Store)
        → (execute lib sha256 quarantine fate now plan_id snapshot_hash st ≡ (stale, st))
          ⊎ ((plan : CleanupPlan) × (find_where (λ x. x.plan_id == plan_id) st.plans ≡ some plan)
              × (execute lib sha256 quarantine fate now plan_id snapshot_hash st
                  ≡ execute_plan lib sha256 quarantine fate now plan st))
    unfolding execute
    execute-cases plan_id snapshot_hash st =
        elim (Option-cases (find_where (λ x. x.plan_id == plan_id) st.plans)) [
          | inl unknown ↦ inl (rw (execute, unknown) refl)
          | inr found ↦ elim (Bool-cases (found.0.snapshot_hash == snapshot_hash)) [
            | inr other ↦ inl (rw (execute, found.1) (rw other refl))
            | inl same ↦ inr (found.0, found.1, rw (execute, found.1) (rw same refl))
          ]
        ]

    -- What holds at the end of the loop when it returns, and when it raises.
    abbrev pub Ends :
        (Progress → Store → Type 0) → (Store → Type 0) → Option Progress × Store → Type 0
    Ends P R (none, st) = R st
    Ends P R (some done, st) = P done st

    pub Ends-both :
        (P : Progress → Store → Type 0) (R Q : Store → Type 0)
        → ((done : Progress) (st : Store) → P done st → Q st)
        → ((st : Store) → R st → Q st)
        → (end : Option Progress × Store) → Ends P R end
        → Q end.1
    Ends-both P R Q returns raises (none, st) held = raises st held
    Ends-both P R Q returns raises (some done, st) held = returns done st held

    abbrev pub skip : CleanupCandidate → Progress → Progress
    skip c done = record done { skipped_paths = done.skipped_paths ++ c.relative_path ∷ [] }

    abbrev pub count_deleted : CleanupCandidate → ℕ → Progress → Progress
    count_deleted c size done = record done {
      deleted_paths = done.deleted_paths ++ c.relative_path ∷ [];
      freed_bytes = done.freed_bytes + size;
    }

    abbrev run_from : ℕ → List CleanupCandidate → Progress → Store → Option Progress × Store
    run_from n cs done st = execute_from lib sha256 quarantine fate n now cs done st

    execute_skips :
        (n : ℕ) (c : CleanupCandidate) (cs : List CleanupCandidate) (done : Progress) (st : Store)
        → candidate_deletable_path lib sha256 now st c ≡ none
        → run_from n (c ∷ cs) done st ≡ run_from (suc n) cs (skip c done) st
    unfolding execute_from
    execute_skips n c cs done st left = rw (execute_from, left) refl

    execute_raises :
        (n : ℕ) (c : CleanupCandidate) (cs : List CleanupCandidate) (f : File) (done : Progress)
        (st : Store)
        → candidate_deletable_path lib sha256 now st c ≡ some f
        → is_complete (fate n) ≡ false
        → run_from n (c ∷ cs) done st
          ≡ (none, (delete_file lib sha256 now quarantine fate n c f st).1)
    unfolding execute_from
    execute_raises n c cs f done st found failing =
        rw (execute_from, found)
          (rw (delete-none lib sha256 now quarantine fate (fate n) n c f st failing) refl)

    execute_deletes :
        (n : ℕ) (c : CleanupCandidate) (cs : List CleanupCandidate) (f : File) (done : Progress)
        (st : Store)
        → candidate_deletable_path lib sha256 now st c ≡ some f
        → fate n ≡ completes
        → run_from n (c ∷ cs) done st
          ≡ run_from
              (suc n)
              cs
              (count_deleted c (length f.content) done)
              (delete_file lib sha256 now quarantine fate n c f st).1
    unfolding execute_from
    execute_deletes n c cs f done st found stored =
        rw (execute_from, found)
          (rw ((delete_stored lib sha256 now quarantine fate n c f st stored).0) refl)

    module _ (P : List CleanupCandidate → Progress → Store → Type 0) (R : Store → Type 0) where
      pub execute_from-Ends :
          ((c : CleanupCandidate) (cs : List CleanupCandidate) (done : Progress) (st : Store)
            → P (c ∷ cs) done st
            → P cs (skip c done) st)
          → ((n : ℕ) (c : CleanupCandidate) (cs : List CleanupCandidate) (f : File)
                (done : Progress) (st : Store)
              → IsFound st c f
              → fate n ≡ completes
              → P (c ∷ cs) done st
              → P cs
                  (count_deleted c (length f.content) done)
                  (delete_file lib sha256 now quarantine fate n c f st).1)
          → ((n : ℕ) (c : CleanupCandidate) (cs : List CleanupCandidate) (f : File)
                (done : Progress) (st : Store)
              → IsFound st c f
              → is_complete (fate n) ≡ false
              → P (c ∷ cs) done st
              → R (delete_file lib sha256 now quarantine fate n c f st).1)
          → (n : ℕ) (cs : List CleanupCandidate) (done : Progress) (st : Store) → P cs done st
          → Ends (P []) R (execute_from lib sha256 quarantine fate n now cs done st)
      unfolding execute_from
      execute_from-Ends skips stores raises n [] done st held = held
      execute_from-Ends skips stores raises n (c ∷ cs) done st held =
          elim (Option-cases (candidate_deletable_path lib sha256 now st c)) [
            | inl left ↦ subst (Ends (P []) R) (sym (execute_skips n c cs done st left)) (
                execute_from-Ends skips stores raises (suc n) cs (skip c done) st
                  (skips c cs done st held))
            | inr found ↦
                let f : File = found.0 in
                let known : IsFound st c f = candidate_deletable_path-IsFound st c f found.1 in
                elim (Bool-cases (is_complete (fate n))) [
                  | inr failing ↦
                      subst (Ends (P []) R) (sym (execute_raises n c cs f done st found.1 failing))
                        (raises n c cs f done st known failing held)
                  | inl whole ↦
                      let stored : fate n ≡ completes = is_complete_lem (fate n) whole in
                      subst (Ends (P []) R) (sym (execute_deletes n c cs f done st found.1 stored))
                        (execute_from-Ends skips stores raises (suc n) cs
                          (count_deleted c (length f.content) done)
                          (delete_file lib sha256 now quarantine fate n c f st).1
                          (stores n c cs f done st known stored held))
                ]
          ]
