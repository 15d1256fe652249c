-- ===== src/Storage/Cleanup/Rules.antt =====
-- The rules of CleanupService: which artifacts are protected, and whether a candidate may be deleted.
use truyenaudio_studio.Storage.Cleanup.Schema.{
  CandidateType, CleanupCandidate, StoredFile, ChapterMaster, Store, wav_age, is_protected_kind,
  is_cache_kind, is_superseded, is_preview, is_wav, is_mp3, is_loose, same_type, superseded_cache,
  unapproved_preview, wav_with_approved_mp3,
}
use truyenaudio_studio.Prelude.{
  ℕ, ◌-◌, Bool, false, ◌||◌, ◌&&◌, not, Option, none, some, List, [], ◌∷◌, String, ◌==◌, ltb,
  if◌then◌else◌, opt_eq, find_where, is_none,
}
use truyenaudio_studio.Prelude.Lists.{length}
use truyenaudio_studio.Prelude.Sets.{is_in_opt}
use text.Mathlib.Text.{◌==◌ as str_eq}
use truyenaudio_studio.Projects.Invalidation.Schema.{is_ready}
use truyenaudio_studio.Storage.Store.{PathLib, File, resolve, is_at}

-- `chapter.approved_master_artifact_id` is the identifier of the artifact.
abbrev pub is_approved_master : List ChapterMaster → ℕ → Bool
is_approved_master [] id = false
is_approved_master (c ∷ cs) id =
    opt_eq c.approved_master_artifact_id (some id) || is_approved_master cs id

-- The join of chapters and artifacts of `_approved_mp3_chapter_ids`.
abbrev pub approved_mp3_chapter_ids : List ChapterMaster → List StoredFile → List ℕ
approved_mp3_chapter_ids [] artifacts = []
approved_mp3_chapter_ids (c ∷ cs) artifacts =
    let rest = approved_mp3_chapter_ids cs artifacts in
    if is_none (
      find_where
        (λ a.
          opt_eq c.approved_master_artifact_id (some a.id) && is_mp3 a.kind && is_ready a.status)
        artifacts)
    then rest
    else c.id ∷ rest

-- `_is_protected_artifact`
abbrev pub is_protected_artifact : List ChapterMaster → StoredFile → Bool
is_protected_artifact chapters a = is_protected_kind a.kind || is_approved_master chapters a.id

-- `_candidate_type_for_artifact`
abbrev pub candidate_type_for_artifact : ℕ → List ℕ → StoredFile → Option CandidateType
candidate_type_for_artifact now mp3_chapters a =
    if is_superseded a.status && is_cache_kind a.kind
    then some superseded_cache
    else if is_preview a.kind && is_ready a.status
    then some unapproved_preview
    else if is_wav a.kind
        && is_ready a.status
        && is_in_opt a.chapter_id mp3_chapters
        && ltb wav_age (now - a.created_at)
    then some wav_with_approved_mp3
    else none

abbrev pub file_at : ℕ → List File → Option File
file_at p files = find_where (is_at p) files

module _ (lib : PathLib) (sha256 : List ℕ → ℕ) where
  -- One path of the loop of `_resolve_artifact_path`.
  abbrev pub holds : ℕ → ℕ → List File → Bool
  holds p digest files = elim (file_at p files) [
    | none ↦ false
    | some f ↦ sha256 f.content == digest
  ]

  -- The paths tried, None where the first is unsafe or the second.
  abbrev pub tried_paths : String → Option (List ℕ)
  tried_paths relative_path = elim (resolve lib relative_path) [
    | none ↦ none
    | some first ↦
        if lib.root_is_artifacts
        then some (first ∷ [])
        else elim (resolve lib (lib.under_artifacts relative_path)) [
          | none ↦ none
          | some second ↦ some (first ∷ second ∷ [])
        ]
  ]

  abbrev pub first_holding : ℕ → List File → List ℕ → Option ℕ
  first_holding digest files [] = none
  first_holding digest files (p ∷ ps) =
      let rest = first_holding digest files ps in if holds p digest files then some p else rest

  -- `_resolve_artifact_path`: the outer None is UnsafeArtifactPath.
  abbrev pub resolve_artifact_path : List File → String → ℕ → Option (Option ℕ)
  resolve_artifact_path files relative_path digest = elim (tried_paths relative_path) [
    | none ↦ none
    | some paths ↦ some (first_holding digest files paths)
  ]

  -- `_resolve_candidate_path`
  abbrev pub resolve_candidate_path : List File → CleanupCandidate → Option ℕ
  resolve_candidate_path files c = elim c.artifact_id [
    | none ↦ resolve lib c.relative_path
    | some id ↦ elim (resolve_artifact_path files c.relative_path c.sha256) [
      | none ↦ none
      | some found ↦ elim found [ none ↦ resolve lib c.relative_path | some p ↦ some p ]
    ]
  ]

  -- The tests on the row of a candidate in `_candidate_deletable_path`.
  unfoldable pub row_is_deletable : ℕ → Store → CleanupCandidate → StoredFile → Bool
  row_is_deletable now st c row =
      str_eq row.relative_path c.relative_path
      && not (is_protected_artifact st.chapters row)
      && elim (candidate_type_for_artifact now (approved_mp3_chapter_ids st.chapters st.artifacts)
          row) [ none ↦ false | some t ↦ same_type t c.candidate_type ]
      && row.sha256 == c.sha256

  unfoldable pub is_deletable : ℕ → Store → CleanupCandidate → Bool
  is_deletable now st c = elim c.artifact_id [
    | none ↦ is_loose c.candidate_type
    | some id ↦ elim (find_where (λ a. a.id == id) st.artifacts) [
      | none ↦ false
      | some row ↦ row_is_deletable now st c row
    ]
  ]

  -- `_candidate_deletable_path`
  unfoldable pub candidate_deletable_path : ℕ → Store → CleanupCandidate → Option File
  candidate_deletable_path now st c = elim (resolve_candidate_path st.files c) [
    | none ↦ none
    | some p ↦ elim (file_at p st.files) [
      | none ↦ none
      | some f ↦
          if sha256 f.content == c.sha256
            && length f.content == c.byte_size
            && is_deletable now st c
          then some f
          else none
    ]
  ]
