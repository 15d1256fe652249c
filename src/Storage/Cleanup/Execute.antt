-- ===== src/Storage/Cleanup/Execute.antt =====
-- CleanupService.execute. The names that uuid4 gives to a file in quarantine are a parameter, and what fails in each
-- deletion.
use truyenaudio_studio.Storage.Cleanup.Schema.{
  CleanupCandidate, CleanupPlan, StoredFile, AuditEvent, Store, Progress, Outcome, stale, raised,
  returned,
}
use truyenaudio_studio.Storage.Cleanup.Rules.{file_at, candidate_deletable_path}
use truyenaudio_studio.Prelude.{
  ℕ, suc, ◌+◌, ◌&&◌, Option, none, some, List, [], ◌∷◌, ◌++◌, ◌==◌, if◌then◌else◌, find_where,
  update_where, is_none, is_some,
}
use truyenaudio_studio.Prelude.Lists.{length}
use truyenaudio_studio.Projects.Invalidation.Schema.{deleted}
use truyenaudio_studio.Storage.Store.{PathLib, File, replace, unlink}

abbrev pub finish : ℕ → Option Progress → Outcome
finish plan_id none = raised
finish plan_id (some done) = returned record {
  plan_id = plan_id;
  deleted_count = length done.deleted_paths;
  skipped_count = length done.skipped_paths;
  freed_bytes = done.freed_bytes;
  deleted_paths = done.deleted_paths;
  skipped_paths = done.skipped_paths;
}

abbrev pub nothing_done : Progress
nothing_done = record { deleted_paths = []; skipped_paths = []; freed_bytes = 0 }

-- How a deletion goes: its step that raises, or none. The move to quarantine raises before anything is changed; the
-- storing raises and the file is put back, or the putting back raises too; the last unlink raises after the commit.
pub data Fate : Type 0 where
  completes move_fails store_fails restore_fails unlink_fails : Fate

module _ (lib : PathLib) (sha256 : List ℕ → ℕ) where
  module _ (quarantine : ℕ → ℕ → ℕ) where
    abbrev pub audit_delete : ℕ → CleanupCandidate → ℕ → List AuditEvent → List AuditEvent
    audit_delete now c size events =
        events
        ++ record {
          artifact_id = c.artifact_id;
          before_hash = c.sha256;
          candidate_type = c.candidate_type;
          relative_path = c.relative_path;
          byte_size = size;
          created_at = now;
        }
          ∷ []

    abbrev pub mark_deleted : ℕ → Option ℕ → List StoredFile → List StoredFile
    mark_deleted now none artifacts = artifacts
    mark_deleted now (some id) artifacts =
        update_where (λ a. a.id == id) (λ a. record a { status = deleted; updated_at = now })
          artifacts

    -- What the commit stores.
    abbrev pub store_deletion : ℕ → CleanupCandidate → ℕ → Store → Store
    store_deletion now c size st = record st {
      artifacts = mark_deleted now c.artifact_id st.artifacts;
      audit_events = audit_delete now c size st.audit_events;
    }

    -- `_delete_with_durable_audit`, the call with the number `n`: None where it raises.
    unfoldable pub delete_with_durable_audit :
        Fate → ℕ → ℕ → CleanupCandidate → File → Store → Option ℕ × Store
    delete_with_durable_audit fate n now c f st =
        let size = length f.content in
        let hidden = quarantine n f.path in
        let moved = replace f.path hidden st.files in
        elim fate [
          | completes ↦
              (some size, record (store_deletion now c size st) { files = unlink hidden moved })
          | move_fails ↦ (none, st)
          | store_fails ↦ (
            none,
            record st {
              files =
                  if is_some (file_at hidden moved) && is_none (file_at f.path moved)
                  then replace hidden f.path moved
                  else moved;
            },
          )
          | restore_fails ↦ (none, record st { files = moved })
          | unlink_fails ↦ (none, record (store_deletion now c size st) { files = moved })
        ]

  module _ (quarantine : ℕ → ℕ → ℕ) (fate : ℕ → Fate) where
    -- The loop of `execute`: None where a deletion raises.
    unfoldable pub execute_from :
        ℕ → ℕ → List CleanupCandidate → Progress → Store → Option Progress × Store
    execute_from n now [] done st = (some done, st)
    execute_from n now (c ∷ cs) done st = elim (candidate_deletable_path lib sha256 now st c) [
      | none ↦
          execute_from (suc n) now cs
            (record done { skipped_paths = done.skipped_paths ++ c.relative_path ∷ [] }) st
      | some f ↦
          let (freed, after) = delete_with_durable_audit quarantine (fate n) n now c f st in
          elim freed [
            | none ↦ (none, after)
            | some size ↦
                execute_from (suc n) now cs
                  (record done {
                    deleted_paths = done.deleted_paths ++ c.relative_path ∷ [];
                    freed_bytes = done.freed_bytes + size;
                  })
                  after
          ]
    ]

    abbrev pub execute_plan : ℕ → CleanupPlan → Store → Outcome × Store
    execute_plan now p st =
        let (done, after) = execute_from 0 now p.candidates nothing_done st in
        (finish p.plan_id done, after)

    -- `execute`
    unfoldable pub execute : ℕ → ℕ → ℕ → Store → Outcome × Store
    execute now plan_id snapshot_hash st = elim (find_where (λ p. p.plan_id == plan_id) st.plans) [
      | none ↦ (stale, st)
      | some p ↦ if p.snapshot_hash == snapshot_hash then execute_plan now p st else (stale, st)
    ]
