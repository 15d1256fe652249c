-- ===== src/Storage/Cleanup/Preview.antt =====
-- CleanupService.preview. The patterns of rglob and glob, the order of strings and the hash of a list of candidates are
-- parameters.
use truyenaudio_studio.Storage.Cleanup.Schema.{
  CandidateType, CleanupCandidate, CleanupPlan, StoredFile, Store, partial_age,
  diagnostic_log_retention, is_deleted, type_rank, partial, diagnostic_log,
}
use truyenaudio_studio.Storage.Cleanup.Rules.{
  approved_mp3_chapter_ids, is_protected_artifact, candidate_type_for_artifact, file_at,
  resolve_artifact_path,
}
use truyenaudio_studio.Prelude.{
  ℕ, ◌+◌, ◌-◌, Bool, none, some, List, [], ◌∷◌, ◌++◌, String, ◌==◌, ltb, leb, if◌then◌else◌,
  select_where,
}
use truyenaudio_studio.Prelude.Lists.{length}
use truyenaudio_studio.Prelude.Order.{sort_by}
use text.Mathlib.Text.{◌==◌ as str_eq}
use truyenaudio_studio.Storage.Store.{PathLib, File}

abbrev pub sum_bytes : List CleanupCandidate → ℕ
sum_bytes [] = 0
sum_bytes (c ∷ cs) = c.byte_size + sum_bytes cs

module _ (lib : PathLib) (sha256 : List ℕ → ℕ) where
  -- `_artifact_candidates`, on the rows that are not DELETED.
  abbrev pub artifact_candidate : ℕ → Store → StoredFile → List CleanupCandidate
  artifact_candidate now st a =
      if is_protected_artifact st.chapters a
      then []
      else elim (candidate_type_for_artifact now (approved_mp3_chapter_ids st.chapters st.artifacts)
          a) [
            | none ↦ []
            | some t ↦ elim (resolve_artifact_path lib sha256 st.files a.relative_path a.sha256) [
              | none ↦ []
              | some found ↦ elim found [
                | none ↦ []
                | some p ↦ elim (file_at p st.files) [
                  | none ↦ []
                  | some f ↦
                      if sha256 f.content == a.sha256
                      then record {
                        candidate_type = t;
                        relative_path = a.relative_path;
                        byte_size = length f.content;
                        sha256 = sha256 f.content;
                        artifact_id = some a.id;
                      }
                        ∷ []
                      else []
                ]
              ]
            ]
          ]

  abbrev pub artifact_candidates : ℕ → Store → List StoredFile → List CleanupCandidate
  artifact_candidates now st [] = []
  artifact_candidates now st (a ∷ rows) =
      let rest = artifact_candidates now st rows in
      if is_deleted a.status then rest else artifact_candidate now st a ++ rest

  -- `_partial_candidates` and `_diagnostic_log_candidates`: the files of the pattern that are older than the age.
  abbrev pub loose_candidates : CandidateType → ℕ → ℕ → List File → List CleanupCandidate
  loose_candidates t age now [] = []
  loose_candidates t age now (f ∷ fs) =
      let rest = loose_candidates t age now fs in
      if ltb age (now - f.modified_at)
      then record {
        candidate_type = t;
        relative_path = lib.relative_to_root f.path;
        byte_size = length f.content;
        sha256 = sha256 f.content;
        artifact_id = none;
      }
        ∷ rest
      else rest

  module _ (path_leb : String → String → Bool) (is_partial is_log : ℕ → Bool)
      (snapshot_of : List CleanupCandidate → ℕ) (prefix : ℕ → ℕ) where
    abbrev pub candidate_leb : CleanupCandidate → CleanupCandidate → Bool
    candidate_leb a b =
        if str_eq a.relative_path b.relative_path
        then leb (type_rank a.candidate_type) (type_rank b.candidate_type)
        else path_leb a.relative_path b.relative_path

    -- `preview`
    unfoldable pub preview : ℕ → Store → CleanupPlan × Store
    preview now st =
        let candidates = sort_by candidate_leb (
          artifact_candidates now st st.artifacts
          ++ loose_candidates partial partial_age now
              (select_where (λ f. is_partial f.path) st.files)
          ++ loose_candidates diagnostic_log diagnostic_log_retention now
              (select_where (λ f. is_log f.path) st.files)) in
        let made : CleanupPlan = record {
          plan_id = prefix (snapshot_of candidates);
          snapshot_hash = snapshot_of candidates;
          candidates = candidates;
          total_bytes = sum_bytes candidates;
        } in
        (made, record st { plans = made ∷ st.plans })
