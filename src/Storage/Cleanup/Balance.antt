-- ===== src/Storage/Cleanup/Balance.antt =====
-- The account of CleanupService.execute: the bytes on the disk, in the audit and in the result.
use truyenaudio_studio.Prelude.{
  ℕ, ◌+◌, ◌≡◌, refl, sym, ap, ◌∙◌, subst, false, Option, none, some, List, [], ◌∷◌, ◌++◌, ◌==◌, ◌⊎◌,
  inl, inr, arith, find_where,
}
use truyenaudio_studio.Prelude.Lists.{length}
use truyenaudio_studio.Storage.Store.{PathLib, File, rename, total_bytes}
use truyenaudio_studio.Storage.Cleanup.Schema.{
  CleanupCandidate, CleanupPlan, Store, Progress, Outcome, stale, raised, returned,
}
use truyenaudio_studio.Storage.Cleanup.Rules.{file_at}
use truyenaudio_studio.Storage.Cleanup.Quarantined.{total_bytes-replace, found-replace}
use truyenaudio_studio.Storage.Cleanup.Execute.{
  Fate, completes, unlink_fails, execute_from, nothing_done, finish, execute,
}
use truyenaudio_studio.Storage.Cleanup.Account.{total_bytes-unlink}
use truyenaudio_studio.Storage.Cleanup.Deletion.{
  IsSound, audited_bytes, delete_file, delete_files, delete-IsSound, delete_stored, is_complete,
  delete-Raised,
}
use truyenaudio_studio.Storage.Cleanup.Loop.{
  IsFound, Ends, execute_from-Ends, execute-cases, skip, count_deleted,
}

-- The bytes on the disk and the bytes that the audit says were deleted.
abbrev pub account : Store → ℕ
account st = total_bytes st.files + audited_bytes st.audit_events

-- The candidates of the plan with that identifier, which preview stored last.
abbrev pub planned : ℕ → Store → ℕ
planned plan_id st = elim (find_where (λ x. x.plan_id == plan_id) st.plans) [
  | none ↦ 0
  | some plan ↦ length plan.candidates
]

-- The unlink of a deletion raised: its file is still in quarantine, and its bytes are in the audit too.
abbrev pub LeftBehind : (ℕ → ℕ → ℕ) → (ℕ → Fate) → Store → Store → Type 0
LeftBehind quarantine fate st after =
    (n : ℕ) × (p : ℕ) × (f : File) × (fate n ≡ unlink_fails)
    × (file_at (quarantine n p) after.files ≡ some f)
    × (account after ≡ account st + length f.content)

-- A result counts each candidate once, and the bytes that it freed are those that the disk lost; a refusal changes
-- nothing.
abbrev pub Reports : (ℕ → ℕ → ℕ) → (ℕ → Fate) → ℕ → Store → Outcome × Store → Type 0
Reports quarantine fate plan_id st (stale, after) = after ≡ st
Reports quarantine fate plan_id st (raised, after) =
    (account after ≡ account st) ⊎ LeftBehind quarantine fate st after
Reports quarantine fate plan_id st (returned r, after) =
    (account after ≡ account st)
    × (total_bytes after.files + r.freed_bytes ≡ total_bytes st.files)
    × (r.deleted_count + r.skipped_count ≡ planned plan_id st)

length-snoc : {A : Type 0} (xs : List A) (x : A) → length (xs ++ x ∷ []) ≡ length xs + 1
length-snoc [] x = refl
length-snoc (y ∷ xs) x = omega (arith, length-snoc xs x)

module _ (lib : PathLib) (sha256 : List ℕ → ℕ) (quarantine : ℕ → ℕ → ℕ) (fate : ℕ → Fate)
    (now : ℕ) where
  abbrev delete_here : ℕ → CleanupCandidate → File → Store → Option ℕ × Store
  delete_here = delete_file lib sha256 now quarantine fate

  delete_account :
      (n : ℕ) (c : CleanupCandidate) (f : File) (st : Store)
      → IsSound quarantine st.files
      → file_at f.path st.files ≡ some f
      → fate n ≡ completes
      → account (delete_here n c f st).1 ≡ account st
  delete_account n c f st sound at stored =
      let less =
        ap total_bytes (delete_files lib sha256 now quarantine fate n c f st sound stored) in
      let audit = (delete_stored lib sha256 now quarantine fate n c f st stored).1 in
      omega
        (arith, less, audit, total_bytes-unlink f.path st.files {f = f} at (sound.one_each f.path))

  -- What a deletion that raises does to the account.
  raised_account :
      (n : ℕ) (c : CleanupCandidate) (f : File) (st : Store)
      → IsSound quarantine st.files
      → file_at f.path st.files ≡ some f
      → is_complete (fate n) ≡ false
      → (account (delete_here n c f st).1 ≡ account st)
        ⊎ LeftBehind quarantine fate st (delete_here n c f st).1
  raised_account n c f st sound at failing =
      let q : ℕ = quarantine n f.path in
      let fresh = sound.free n f.path in
      let bytes = total_bytes-replace f.path q st.files fresh in
      elim (delete-Raised lib sha256 now quarantine fate (fate n) n c f st sound at failing) [
        | inl nothing ↦ inl (ap account nothing)
        | inr (files, inl audit) ↦
            inl (omega (arith, ap total_bytes files, bytes, ap audited_bytes audit))
        | inr (files, inr (unlinked, audit)) ↦ inr (
          n,
          f.path,
          rename q f,
          unlinked,
          ap (file_at q) files ∙ found-replace f.path q st.files fresh {f = f} at,
          omega (arith, ap total_bytes files, bytes, audit),
        )
      ]

  module _ (start : Store) (number : ℕ) where
    record Holds (cs : List CleanupCandidate) (done : Progress) (st : Store) : Type 0 where
      sound : IsSound quarantine st.files
      same : account st ≡ account start
      freed : audited_bytes st.audit_events ≡ audited_bytes start.audit_events + done.freed_bytes
      counted : length done.deleted_paths + length done.skipped_paths + length cs ≡ number

    skips :
        (c : CleanupCandidate) (cs : List CleanupCandidate) (done : Progress) (st : Store)
        → Holds (c ∷ cs) done st
        → Holds cs (skip lib sha256 now quarantine fate c done) st
    skips c cs done st held = record {
      sound = held.sound;
      same = held.same;
      freed = held.freed;
      counted = omega (arith, held.counted, length-snoc done.skipped_paths c.relative_path);
    }

    deletes :
        (n : ℕ) (c : CleanupCandidate) (cs : List CleanupCandidate) (f : File) (done : Progress)
        (st : Store)
        → IsFound lib sha256 now st c f
        → fate n ≡ completes
        → Holds (c ∷ cs) done st
        → Holds cs
            (count_deleted lib sha256 now quarantine fate c (length f.content) done)
            (delete_here n c f st).1
    deletes n c cs f done st known stored held = record {
      sound = delete-IsSound lib sha256 now quarantine fate n c f st held.sound stored;
      same = delete_account n c f st held.sound known.file stored ∙ held.same;
      freed =
          let audit = (delete_stored lib sha256 now quarantine fate n c f st stored).1 in
          omega (arith, held.freed, audit);
      counted = omega (arith, held.counted, length-snoc done.deleted_paths c.relative_path);
    }

    abbrev EndsRaised : Store → Type 0
    EndsRaised st = (account st ≡ account start) ⊎ LeftBehind quarantine fate start st

    raises :
        (n : ℕ) (c : CleanupCandidate) (cs : List CleanupCandidate) (f : File) (done : Progress)
        (st : Store)
        → IsFound lib sha256 now st c f
        → is_complete (fate n) ≡ false
        → Holds (c ∷ cs) done st
        → EndsRaised (delete_here n c f st).1
    raises n c cs f done st known failing held =
        elim (raised_account n c f st held.sound known.file failing) [
          | inl balanced ↦ inl (balanced ∙ held.same)
          | inr (m, p, g, unlinked, there, more) ↦
              inr (m, p, g, unlinked, there, omega (arith, more, held.same))
        ]

    loop-Holds :
        (cs : List CleanupCandidate)
        → IsSound quarantine start.files
        → length cs ≡ number
        → Ends lib sha256 now quarantine fate
            (Holds [])
            EndsRaised
            (execute_from lib sha256 quarantine fate 0 now cs nothing_done start)
    loop-Holds cs sound all =
        execute_from-Ends lib sha256 now quarantine fate Holds EndsRaised skips deletes raises 0 cs
          nothing_done start
          record { sound = sound; same = refl; freed = omega arith; counted = omega (arith, all) }

    end-Reports :
        (plan_id k : ℕ) (end : Option Progress × Store)
        → planned plan_id start ≡ number
        → Ends lib sha256 now quarantine fate (Holds []) EndsRaised end
        → Reports quarantine fate plan_id start (finish k end.0, end.1)
    end-Reports plan_id k (none, st) all held = held
    end-Reports plan_id k (some done, st) all held =
        (held.same, omega (arith, held.same, held.freed), omega (arith, held.counted, all))

-- On files with distinct paths, of which none has a path that quarantine can choose: when execute refuses the token it
-- changes nothing. When it returns a result, the bytes on the disk and those that the audit says were deleted have the
-- same sum as before, its counts of deleted and skipped candidates are together the number of the plan's, and the disk
-- has lost the bytes that the result says were freed. When it raises, the sum is as before too, unless the unlink of a
-- deletion raised after its commit: then one file is left in quarantine, and the sum is larger by its bytes.
pub execute-Reports :
    (lib : PathLib) (sha256 : List ℕ → ℕ) (quarantine : ℕ → ℕ → ℕ) (fate : ℕ → Fate)
    (now plan_id snapshot_hash : ℕ) (st : Store)
    → IsSound quarantine st.files
    → Reports quarantine fate plan_id st
        (execute lib sha256 quarantine fate now plan_id snapshot_hash st)
execute-Reports lib sha256 quarantine fate now plan_id snapshot_hash st sound =
    elim (execute-cases lib sha256 now quarantine fate plan_id snapshot_hash st) [
      | inl refused ↦ subst (Reports quarantine fate plan_id st) (sym refused) refl
      | inr run ↦
          let plan : CleanupPlan = run.0 in
          let number : planned plan_id st ≡ length plan.candidates = rw (planned, run.1) refl in
          subst (Reports quarantine fate plan_id st) (sym run.2) (
            end-Reports lib sha256 quarantine fate now st (length plan.candidates) plan_id
              plan.plan_id
              (execute_from lib sha256 quarantine fate 0 now plan.candidates nothing_done st) number
              (loop-Holds lib sha256 quarantine fate now st (length plan.candidates) plan.candidates
                sound refl))
    ]
