-- ===== src/Projects/Invalidation/Reuse.antt =====
-- What a plan keeps, and the identifiers that it returns.
use truyenaudio_studio.Prelude.{
  ℕ, ◌≡◌, refl, sym, ap, ◌∙◌, Bool, true, false, ◌||◌, ◌&&◌, not, List, [], ◌∷◌, ◌==◌, ==_iff,
  Bool-cases, inl, inr, arith, All, All-map, select_where,
}
use truyenaudio_studio.Prelude.Sets.{is_in, is_in-add_id, is_in_opt}
use truyenaudio_studio.Prelude.Rows.Pairs.{All2}
use truyenaudio_studio.Projects.Invalidation.Schema.{
  Change, Artifact, Db, InvalidationPlan, is_ready, is_tts, is_master,
}
use truyenaudio_studio.Projects.Invalidation.Queries.{changed_chapter_ids}
use truyenaudio_studio.Projects.Invalidation.Graph.{
  Graph, lower, revoke, supersede_run, ids_of, ready_reused_artifacts, new_graph, apply_change,
  plan,
}
use truyenaudio_studio.Projects.Invalidation.Later.{Moved, Settled, Later, Includes}
use truyenaudio_studio.Projects.Invalidation.Steps.{Includes-add, in-add}
use truyenaudio_studio.Projects.Invalidation.Listed.{Listed, Withdrawn, Revoked}
use truyenaudio_studio.Projects.Invalidation.Withdrawals.{apply_change-Listed}
use truyenaudio_studio.Projects.Invalidation.Stages.{apply_change-Later}

-- What the tables after a plan keep of the stored ones.
pub record Keeps (now : ℕ) (outcome : InvalidationPlan) (stored after : Db) : Type 0 where
  pub artifacts :
      All2 (Moved (λ a. a.id) lower outcome.invalidated) stored.artifacts after.artifacts
  pub exports :
      All2 (Moved (λ e. e.id) (revoke now) outcome.revoked_exports) stored.exports after.exports
  pub runs :
      All2
        (Moved (λ r. r.id) supersede_run outcome.invalidated)
        stored.translation_runs
        after.translation_runs
  pub chapters : All2 Settled stored.chapters after.chapters
  pub speech : after.speech_segments ≡ stored.speech_segments
  pub within : All (λ x. is_in x outcome.invalidated ≡ true) outcome.revoked_exports
  pub listed : (x : ℕ) → is_in x outcome.invalidated ≡ true → Withdrawn now stored after x
  pub revoked : (x : ℕ) → is_in x outcome.revoked_exports ≡ true → Revoked now stored after x

empty_in : (x : ℕ) (b : Bool) → (is_in x [] && b) ≡ false
unfolding is_in
empty_in x b = refl

nothing_in : (x : ℕ) → ¬ (is_in x [] ≡ true)
unfolding is_in
nothing_in x h = ground (arith, h)

included :
    (xs ys zs : List ℕ)
    → Includes xs ys
    → ((x : ℕ) → is_in x zs ≡ true → is_in x xs ≡ true)
    → All (λ x. is_in x ys ≡ true) zs
unfolding is_in
included xs ys [] more inside = tt
included xs ys (z ∷ zs) more inside =
    (more z (inside z (ground arith)), included xs ys zs more (λ x h. inside x (ground (arith, h))))

-- A plan leaves the artifacts and translation runs that it does not list as invalidated, and the exports that it does
-- not list as revoked, as they were stored, and the others too unless it supersedes or revokes them; the order and
-- number of the rows is kept. Each identifier that it lists is that of a stored artifact of which no READY row is left,
-- of a stored translation run of which each row is superseded, or of a stored export of which each row is revoked at
-- that time; the identifiers of revoked exports are all of this last kind, and are listed as invalidated too. Of a
-- chapter only approvals and pointers may be cleared.
pub plan-Keeps :
    (now : ℕ) (change : Change) (stored : Db)
    → Keeps now (plan now change stored).0 stored (plan now change stored).1
unfolding plan is_in
plan-Keeps now change stored =
    let start : Graph = new_graph stored now in
    let g : Graph = apply_change stored now change.kind change.affected_ids start in
    let later : Later now start g =
      apply_change-Later stored now change.kind change.affected_ids start in
    let listed : Listed stored now g =
      apply_change-Listed stored now change.kind change.affected_ids start record {
        down = λ x h. absurd (nothing_in x h);
        revoked = λ x h. absurd (nothing_in x h);
      } in
    record {
      artifacts = later.artifacts;
      exports = later.exports;
      runs = later.runs;
      chapters = later.chapters;
      speech = later.speech;
      within =
          included g.revoked_exports g.invalidated g.revoked_exports (later.within (λ x h. h))
            (λ x h. h);
      listed = listed.down;
      revoked = listed.revoked;
    }

-- The READY audio of the chapters that the change affects.
abbrev pub candidate : Db → Change → Artifact → Bool
candidate stored change a =
    is_in_opt a.chapter_id (changed_chapter_ids stored change.kind change.affected_ids)
    && (is_tts a.kind || is_master a.kind)
    && is_ready a.status

-- No identifier of a selected row is in the set.
ids_of-disjoint :
    (q : Artifact → Bool) (invalidated : List ℕ)
    → ((a : Artifact) → q a ≡ true → is_in a.id invalidated ≡ false)
    → (x : ℕ) (rows : List Artifact)
    → (is_in x (ids_of (select_where q rows)) && is_in x invalidated) ≡ false
unfolding select_where
ids_of-disjoint q invalidated apart x [] = empty_in x (is_in x invalidated)
ids_of-disjoint q invalidated apart x (a ∷ rows) =
    let rest = ids_of-disjoint q invalidated apart x rows in
    elim (Bool-cases (q a)) [
      | inr left ↦ rw left rest
      | inl taken ↦ rw taken (
          ap (λ b. b && is_in x invalidated) (is_in-add_id x a.id (ids_of (select_where q rows)))
          ∙ elim (Bool-cases (a.id == x)) [
            | inl here ↦ ground (
              arith,
              ap (λ i. is_in i invalidated) (sym ((==_iff a.id x).0 here)) ∙ apart a taken,
            )
            | inr away ↦ ground (arith, away, rest)
          ])
    ]

ids_of-more :
    (q : Artifact → Bool) (a : Artifact) (rows : List Artifact) (x : ℕ)
    → is_in x (ids_of (select_where q rows)) ≡ true
    → is_in x (ids_of (select_where q (a ∷ rows))) ≡ true
unfolding select_where
ids_of-more q a rows x h = elim (Bool-cases (q a)) [
  | inl taken ↦ rw taken (Includes-add a.id (ids_of (select_where q rows)) x h)
  | inr left ↦ rw left h
]

ids_of-kept :
    (q : Artifact → Bool) (rows : List Artifact)
    → All (λ a. q a ≡ true → is_in a.id (ids_of (select_where q rows)) ≡ true) rows
unfolding select_where
ids_of-kept q [] = tt
ids_of-kept q (a ∷ rows) = (
  λ taken. rw taken (in-add a.id (ids_of (select_where q rows))),
  All-map (λ b. q b ≡ true → is_in b.id (ids_of (select_where q rows)) ≡ true)
      (λ b. q b ≡ true → is_in b.id (ids_of (select_where q (a ∷ rows))) ≡ true) rows
      (λ b kept h. ids_of-more q a rows b.id (kept h)) (ids_of-kept q rows),
)

All-select :
    (P Q : Artifact → Type 0) (p : Artifact → Bool)
    → ((a : Artifact) → P a → p a ≡ true → Q a)
    → (rows : List Artifact) → All P rows
    → All Q (select_where p rows)
unfolding select_where
All-select P Q p keep [] all = tt
All-select P Q p keep (a ∷ rows) all = elim (Bool-cases (p a)) [
  | inl taken ↦ rw taken (keep a all.0 taken, All-select P Q p keep rows all.1)
  | inr left ↦ rw left (All-select P Q p keep rows all.1)
]

-- No identifier is both reused and invalidated, and each READY audio artifact of the affected chapters is reused or
-- invalidated.
pub plan_reuses :
    (now : ℕ) (change : Change) (stored : Db)
    → ((x : ℕ)
        → (is_in x (plan now change stored).0.reused
            && is_in x (plan now change stored).0.invalidated)
          ≡ false)
      × All
          (λ a.
            is_in a.id (plan now change stored).0.reused
            ≡ not (is_in a.id (plan now change stored).0.invalidated))
          (select_where (candidate stored change) stored.artifacts)
unfolding plan ready_reused_artifacts
plan_reuses now change stored =
    let invalidated : List ℕ =
      (apply_change stored now change.kind change.affected_ids
        (new_graph stored now)).invalidated in
    let q : Artifact → Bool = λ a.
      is_in_opt a.chapter_id (changed_chapter_ids stored change.kind change.affected_ids)
      && (is_tts a.kind || is_master a.kind)
      && is_ready a.status
      && not (is_in a.id invalidated) in
    let disjoint : (x : ℕ)
        → (is_in x (ids_of (select_where q stored.artifacts)) && is_in x invalidated) ≡ false =
      λ x. ids_of-disjoint q invalidated (λ a h. ground (arith, h)) x stored.artifacts in
    (
      disjoint,
      All-select (λ a. q a ≡ true → is_in a.id (ids_of (select_where q stored.artifacts)) ≡ true)
          (λ a.
            is_in a.id (ids_of (select_where q stored.artifacts)) ≡ not (is_in a.id invalidated))
          (candidate stored change)
          (λ a kept chosen. elim (Bool-cases (is_in a.id invalidated)) [
            | inl gone ↦ ground (arith, gone, disjoint a.id)
            | inr fresh ↦ ground (arith, fresh, kept (ground (arith, chosen, fresh)))
          ])
          stored.artifacts (ids_of-kept q stored.artifacts),
    )
