-- ===== src/Storage/Cleanup/Deletion.antt =====
-- One deletion of CleanupService.execute: what it does where it completes, and where it raises.
use truyenaudio_studio.Prelude.{
  ℕ, ◌+◌, ◌≤◌, ◌≡◌, refl, sym, ap, subst, Bool, true, false, Option, none, some, List, [], ◌∷◌,
  ◌++◌, ◌⊎◌, inl, inr, arith, count_where,
}
use truyenaudio_studio.Prelude.Lists.{length}
use truyenaudio_studio.Storage.Store.{PathLib, File, is_at, unlink, replace}
use truyenaudio_studio.Storage.Cleanup.Schema.{CleanupCandidate, AuditEvent, Store}
use truyenaudio_studio.Storage.Cleanup.Rules.{file_at}
use truyenaudio_studio.Storage.Cleanup.Execute.{
  Fate, completes, move_fails, store_fails, restore_fails, unlink_fails, delete_with_durable_audit,
}
use truyenaudio_studio.Storage.Cleanup.Account.{unlink-replace, restore, count-delete}

-- No two files have one path, and no file has a path that quarantine can choose.
pub record IsSound (quarantine : ℕ → ℕ → ℕ) (files : List File) : Type 0 where
  pub one_each : (p : ℕ) → count_where (is_at p) files ≤ 1
  pub free : (n p : ℕ) → count_where (is_at (quarantine n p)) files ≡ 0

-- The bytes that the audit says were deleted.
unfoldable pub audited_bytes : List AuditEvent → ℕ
audited_bytes [] = 0
audited_bytes (e ∷ es) = e.byte_size + audited_bytes es

audited_bytes-append :
    (es : List AuditEvent) (e : AuditEvent)
    → audited_bytes (es ++ e ∷ []) ≡ audited_bytes es + e.byte_size
unfolding audited_bytes
audited_bytes-append [] e = omega arith
audited_bytes-append (x ∷ es) e = omega (arith, audited_bytes-append es e)

abbrev pub is_complete : Fate → Bool
is_complete completes = true
is_complete _ = false

pub is_complete_lem : (d : Fate) → is_complete d ≡ true → d ≡ completes
is_complete_lem completes h = refl
is_complete_lem move_fails h = absurd (ground (arith, h))
is_complete_lem store_fails h = absurd (ground (arith, h))
is_complete_lem restore_fails h = absurd (ground (arith, h))
is_complete_lem unlink_fails h = absurd (ground (arith, h))

module _ (lib : PathLib) (sha256 : List ℕ → ℕ) (now : ℕ) where
  module _ (quarantine : ℕ → ℕ → ℕ) (fate : ℕ → Fate) where
    abbrev pub delete_file : ℕ → CleanupCandidate → File → Store → Option ℕ × Store
    delete_file n c f st = delete_with_durable_audit lib sha256 quarantine (fate n) n now c f st

    -- The files after a deletion that completes.
    pub delete_files :
        (n : ℕ) (c : CleanupCandidate) (f : File) (st : Store)
        → IsSound quarantine st.files
        → fate n ≡ completes
        → (delete_file n c f st).1.files ≡ unlink f.path st.files
    unfolding delete_with_durable_audit
    delete_files n c f st sound stored =
        rw stored (unlink-replace f.path (quarantine n f.path) st.files (sound.free n f.path))

    pub delete-IsSound :
        (n : ℕ) (c : CleanupCandidate) (f : File) (st : Store)
        → IsSound quarantine st.files
        → fate n ≡ completes
        → IsSound quarantine (delete_file n c f st).1.files
    delete-IsSound n c f st sound stored =
        subst (IsSound quarantine) (sym (delete_files n c f st sound stored)) record {
          one_each =
              λ p. omega (arith, count-delete (is_at p) (is_at f.path) st.files, sound.one_each p);
          free = λ m p. omega (
            arith,
            count-delete (is_at (quarantine m p)) (is_at f.path) st.files,
            sound.free m p,
          );
        }

    -- A deletion that completes moves the bytes of the file to the audit.
    pub delete_stored :
        (n : ℕ) (c : CleanupCandidate) (f : File) (st : Store)
        → fate n ≡ completes
        → ((delete_file n c f st).0 ≡ some (length f.content))
          × (audited_bytes (delete_file n c f st).1.audit_events
              ≡ audited_bytes st.audit_events + length f.content)
    unfolding delete_with_durable_audit
    delete_stored n c f st stored = rw stored (refl, audited_bytes-append st.audit_events _)

    -- A deletion that raises changes nothing, or leaves the file in quarantine; in that case its bytes may be in the
    -- audit as well, if it is the unlink that raised.
    abbrev pub Raised : Fate → ℕ → File → Store → Store → Type 0
    Raised d n f st after =
        (after ≡ st)
        ⊎ ((after.files ≡ replace f.path (quarantine n f.path) st.files)
            × ((after.audit_events ≡ st.audit_events)
                ⊎ ((d ≡ unlink_fails)
                    × (audited_bytes after.audit_events
                        ≡ audited_bytes st.audit_events + length f.content))))

    pub delete-Raised :
        (d : Fate) (n : ℕ) (c : CleanupCandidate) (f : File) (st : Store)
        → IsSound quarantine st.files
        → file_at f.path st.files ≡ some f
        → is_complete d ≡ false
        → Raised d n f st (delete_with_durable_audit lib sha256 quarantine d n now c f st).1
    unfolding delete_with_durable_audit
    delete-Raised completes n c f st sound at h = absurd (ground (arith, h))
    delete-Raised move_fails n c f st sound at h = inl refl
    delete-Raised store_fails n c f st sound at h = inl (
        ap (λ files. record st { files = files })
          (restore f.path (quarantine n f.path) st.files (sound.free n f.path) {f = f} at))
    delete-Raised restore_fails n c f st sound at h = inr (refl, inl refl)
    delete-Raised unlink_fails n c f st sound at h =
        inr (refl, inr (refl, audited_bytes-append st.audit_events _))

    pub delete-none :
        (d : Fate) (n : ℕ) (c : CleanupCandidate) (f : File) (st : Store)
        → is_complete d ≡ false
        → (delete_with_durable_audit lib sha256 quarantine d n now c f st).0 ≡ none
    unfolding delete_with_durable_audit
    delete-none completes n c f st h = absurd (ground (arith, h))
    delete-none move_fails n c f st h = refl
    delete-none store_fails n c f st h = refl
    delete-none restore_fails n c f st h = refl
    delete-none unlink_fails n c f st h = refl
