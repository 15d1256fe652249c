-- ===== src/Storage/Examples.antt =====
-- Cleanups of a store of three files: a superseded sound, an approved master and an old partial file.
use truyenaudio_studio.Prelude.Order.{insert_by}
use truyenaudio_studio.Prelude.{
  ℕ, ◌+◌, ◌≡◌, refl, true, false, none, some, List, [], ◌∷◌, ◌==◌, if◌then◌else◌, arith,
  count_where, find_where, delete_where, update_where, select_where,
}
use text.Mathlib.Text.{◌==◌ as str_eq}
use truyenaudio_studio.Projects.Invalidation.Schema.{tts_segment, superseded, master_mp3, ready}
use truyenaudio_studio.Storage.Store.{PathLib}
use truyenaudio_studio.Storage.Cleanup.Schema.{
  CleanupCandidate, superseded_cache, partial, CleanupPlan, StoredFile, Store, stale, returned,
}
use truyenaudio_studio.Storage.Cleanup.Rules.{
  candidate_deletable_path, is_deletable, row_is_deletable,
}
use truyenaudio_studio.Storage.Cleanup.Preview.{preview}
use truyenaudio_studio.Storage.Cleanup.Execute.{
  Fate, completes, store_fails, unlink_fails, execute, execute_from, delete_with_durable_audit,
}
use truyenaudio_studio.Storage.Cleanup.Deletion.{IsSound}
use truyenaudio_studio.Storage.Cleanup.Guard.{Untouched, execute_spares}
use truyenaudio_studio.Storage.Cleanup.Balance.{Reports, execute-Reports}

abbrev lib : PathLib
lib = record {
  is_blank = λ p. str_eq p "";
  windows_absolute = λ p. false;
  windows_drive = λ p. false;
  local_absolute = λ p. false;
  windows_parent = λ p. str_eq p "..";
  local_parent = λ p. str_eq p "..";
  joined = λ p. if str_eq p "a.wav" then 1 else if str_eq p "b.mp3" then 2 else 3;
  is_below_root = λ p. true;
  root_is_artifacts = true;
  under_artifacts = λ p. p;
  relative_to_root = λ p. if p == 1 then "a.wav" else if p == 2 then "b.mp3" else "c.partial";
}

abbrev digest : List ℕ → ℕ
digest [] = 0
digest (b ∷ bytes) = b + digest bytes

abbrev hidden : ℕ → ℕ → ℕ
hidden n p = 100 + n

abbrev never : ℕ → Fate
never n = completes

abbrev sound_file : StoredFile
sound_file = record {
  id = 1;
  chapter_id = some 7;
  kind = tts_segment;
  status = superseded;
  relative_path = "a.wav";
  sha256 = 6;
  created_at = 0;
  updated_at = 0;
}

abbrev master_file : StoredFile
master_file = record {
  id = 2;
  chapter_id = some 7;
  kind = master_mp3;
  status = ready;
  relative_path = "b.mp3";
  sha256 = 4;
  created_at = 0;
  updated_at = 0;
}

abbrev empty_plans : Store
empty_plans = record {
  files =
      record { path = 1; content = 1 ∷ 2 ∷ 3 ∷ []; modified_at = 0 }
      ∷ record { path = 2; content = 4 ∷ []; modified_at = 0 }
      ∷ record { path = 3; content = 5 ∷ 5 ∷ []; modified_at = 0 }
      ∷ [];
  artifacts = sound_file ∷ master_file ∷ [];
  chapters = record { id = 7; approved_master_artifact_id = some 2 } ∷ [];
  audit_events = [];
  plans = [];
}

abbrev sound_candidate : CleanupCandidate
sound_candidate = record {
  candidate_type = superseded_cache;
  relative_path = "a.wav";
  byte_size = 3;
  sha256 = 6;
  artifact_id = some 1;
}

abbrev partial_candidate : CleanupCandidate
partial_candidate = record {
  candidate_type = partial;
  relative_path = "c.partial";
  byte_size = 2;
  sha256 = 10;
  artifact_id = none;
}

-- A candidate that names the approved master.
abbrev master_candidate : CleanupCandidate
master_candidate = record {
  candidate_type = superseded_cache;
  relative_path = "b.mp3";
  byte_size = 1;
  sha256 = 4;
  artifact_id = some 2;
}

abbrev reviewed : CleanupPlan
reviewed = record {
  plan_id = 5;
  snapshot_hash = 55;
  candidates = sound_candidate ∷ master_candidate ∷ partial_candidate ∷ [];
  total_bytes = 6;
}

abbrev storage : Store
storage = record empty_plans { plans = reviewed ∷ [] }

storage-IsSound : IsSound hidden storage.files
unfolding count_where
storage-IsSound = record { one_each = λ p. ground arith; free = λ n p. ground arith }

-- The sound and the partial file are deleted, and the master is skipped.
execute_run :
    (execute lib digest hidden never 100000000000 5 55 storage).0
    ≡ returned record {
      plan_id = 5;
      deleted_count = 2;
      skipped_count = 1;
      freed_bytes = 5;
      deleted_paths = "a.wav" ∷ "c.partial" ∷ [];
      skipped_paths = "b.mp3" ∷ [];
    }
unfolding execute find_where execute_from candidate_deletable_path is_deletable row_is_deletable
    delete_with_durable_audit delete_where update_where
execute_run = refl

execute_stale : (execute lib digest hidden never 100000000000 5 56 storage).0 ≡ stale
unfolding execute find_where
execute_stale = refl

-- When the second deletion cannot be stored, its file is put back.
execute_raised :
    (execute lib digest hidden
      (λ n. if n == 2 then store_fails else completes)
      100000000000
      5
      55
      storage).1.files
    ≡ record { path = 2; content = 4 ∷ []; modified_at = 0 }
      ∷ record { path = 3; content = 5 ∷ 5 ∷ []; modified_at = 0 }
      ∷ []
unfolding execute find_where execute_from candidate_deletable_path is_deletable row_is_deletable
    delete_with_durable_audit delete_where update_where
execute_raised = refl

-- The unlink of the second deletion raises after its commit.
abbrev second_unlink_fails : ℕ → Fate
second_unlink_fails n = if n == 2 then unlink_fails else completes

execute_left :
    (execute lib digest hidden second_unlink_fails 100000000000 5 55 storage).1.files
    ≡ record { path = 2; content = 4 ∷ []; modified_at = 0 }
      ∷ record { path = 102; content = 5 ∷ 5 ∷ []; modified_at = 0 }
      ∷ []
unfolding execute find_where execute_from candidate_deletable_path is_deletable row_is_deletable
    delete_with_durable_audit delete_where update_where
execute_left = refl

preview_run :
    (preview lib digest
      (λ a b. true)
      (λ p. p == 3)
      (λ p. false)
      (λ cs. 55)
      (λ h. 5)
      100000000000
      empty_plans).0.candidates
    ≡ sound_candidate ∷ partial_candidate ∷ []
unfolding preview find_where insert_by select_where
preview_run = refl

execute_spares_example :
    Untouched hidden 2 storage.files
      (execute lib digest hidden never 100000000000 5 55 storage).1.files
unfolding find_where
execute_spares_example =
    execute_spares lib digest hidden never 100000000000 5 55 2 storage storage-IsSound
      ((refl, (refl, (refl, tt))), tt)

execute-Reports_example :
    Reports hidden second_unlink_fails 5 storage
      (execute lib digest hidden second_unlink_fails 100000000000 5 55 storage)
execute-Reports_example =
    execute-Reports lib digest hidden second_unlink_fails 100000000000 5 55 storage storage-IsSound
