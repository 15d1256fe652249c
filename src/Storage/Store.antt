-- ===== src/Storage/Store.antt =====
-- The files under the root of ArtifactStore, and ArtifactStore.resolve.
use truyenaudio_studio.Prelude.{
  ℕ, ◌+◌, Bool, true, false, ◌||◌, Option, none, some, List, [], ◌∷◌, String, ◌==◌, if◌then◌else◌,
  update_where, delete_where,
}
use truyenaudio_studio.Prelude.Lists.{length}
use text.Mathlib.Text.{◌==◌ as str_eq}

-- What the code asks of pathlib: a path on the disk is a number, and the root of the store is fixed.
pub record PathLib : Type 0 where
  pub is_blank : String → Bool
  pub windows_absolute : String → Bool
  pub windows_drive : String → Bool
  pub local_absolute : String → Bool
  pub windows_parent : String → Bool
  pub local_parent : String → Bool
  pub joined : String → ℕ
  pub is_below_root : ℕ → Bool
  pub root_is_artifacts : Bool
  pub under_artifacts : String → String
  pub relative_to_root : ℕ → String

pub record File : Type 0 where
  pub path : ℕ
  pub content : List ℕ
  pub modified_at : ℕ

module _ (lib : PathLib) where
  -- `_validate_relative_path`, false where it raises.
  abbrev pub is_valid_path : String → Bool
  is_valid_path p =
      if lib.is_blank p || str_eq p "."
      then false
      else if lib.windows_absolute p || lib.windows_drive p || lib.local_absolute p
      then false
      else if lib.windows_parent p || lib.local_parent p
      then false
      else true

  -- None where the code raises UnsafeArtifactPath.
  abbrev pub resolve : String → Option ℕ
  resolve p =
      if is_valid_path p
      then (if lib.is_below_root (lib.joined p) then some (lib.joined p) else none)
      else none

abbrev pub is_at : ℕ → File → Bool
is_at p f = f.path == p

abbrev pub rename : ℕ → File → File
rename q f = record f { path = q }

-- `path.replace`, which overwrites the target, where it does not raise.
abbrev pub replace : ℕ → ℕ → List File → List File
replace p q files = update_where (is_at p) (rename q) (delete_where (is_at q) files)

-- `path.unlink(missing_ok=True)` where it does not raise; where it does, nothing is removed.
abbrev pub unlink : ℕ → List File → List File
unlink p files = delete_where (is_at p) files

unfoldable pub total_bytes : List File → ℕ
total_bytes [] = 0
total_bytes (f ∷ fs) = length f.content + total_bytes fs
