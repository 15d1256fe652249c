-- ===== src/Projects/Invalidation/Listed.antt =====
-- The identifiers that InvalidationGraph lists are those of stored rows, and these rows are superseded or revoked.
use truyenaudio_studio.Prelude.{
  ℕ, ◌≤◌, ◌≡◌, refl, sym, ap, ◌∙◌, subst, Bool, true, false, ◌&&◌, not, some, List, [], ◌∷◌, ◌==◌,
  ==_iff, opt_eq, Bool-cases, ◌⊎◌, inl, inr, arith, All, All-map, count_where, find_where,
  select_where,
}
use truyenaudio_studio.Prelude.Sets.{is_in, add_id, is_in-add_id}
use truyenaudio_studio.Prelude.Rows.Pairs.{Off, Off-later, Off-update}
use truyenaudio_studio.Projects.Invalidation.Schema.{
  Artifact, TranslationRun, RunStatus, run_superseded, Export, ExportStatus, export_revoked, Db,
  is_ready,
}
use truyenaudio_studio.Projects.Invalidation.Graph.{
  Graph, lower, revoke, supersede_run, for_each, supersede_artifact, supersede_one_run,
}
use truyenaudio_studio.Projects.Invalidation.Later.{Moved, Later, lower_id}
use truyenaudio_studio.Projects.Invalidation.Steps.{
  supersede_artifact-Later, supersede_one_run-Later, revoke_row, revoke_row-Later,
}

abbrev pub is_superseded_status : RunStatus → Bool
is_superseded_status run_superseded = true
is_superseded_status _ = false

abbrev pub is_revoked_status : ExportStatus → Bool
is_revoked_status export_revoked = true
is_revoked_status _ = false

abbrev pub is_revoked_at : ℕ → Export → Bool
is_revoked_at now e = is_revoked_status e.status && opt_eq e.revoked_at (some now)

abbrev pub HasArtifact : ℕ → List Artifact → Type 0
HasArtifact x rows = 1 ≤ count_where (λ a. a.id == x) rows

abbrev pub HasRun : ℕ → List TranslationRun → Type 0
HasRun x rows = 1 ≤ count_where (λ r. r.id == x) rows

abbrev pub HasExport : ℕ → List Export → Type 0
HasExport x rows = 1 ≤ count_where (λ e. e.id == x) rows

-- A stored export, of which no row is left that was not revoked now.
abbrev pub Revoked : ℕ → Db → Db → ℕ → Type 0
Revoked now stored after x =
    HasExport x stored.exports × Off (λ e. e.id == x) (λ e. not (is_revoked_at now e)) after.exports

-- A stored artifact, of which no row is left READY; a stored run, of which each row is superseded; or such an export.
abbrev pub Withdrawn : ℕ → Db → Db → ℕ → Type 0
Withdrawn now stored after x =
    (HasArtifact x stored.artifacts × Off (λ a. a.id == x) (λ a. is_ready a.status) after.artifacts)
    ⊎ ((HasRun x stored.translation_runs
          × Off (λ r. r.id == x) (λ r. not (is_superseded_status r.status)) after.translation_runs)
        ⊎ Revoked now stored after x)

lower-off : (a : Artifact) → is_ready (lower a).status ≡ false
lower-off a = elim (Bool-cases (is_ready a.status)) [ inl h ↦ rw h refl | inr h ↦ rw h h ]

module _ (stored : Db) (now : ℕ) where
  pub record Listed (g : Graph) : Type 0 where
    pub down : (x : ℕ) → is_in x g.invalidated ≡ true → Withdrawn now stored g.current x
    pub revoked : (x : ℕ) → is_in x g.revoked_exports ≡ true → Revoked now stored g.current x

  Revoked-Later :
      (g h : Graph)
      → Later now g h
      → (x : ℕ) → Revoked now stored g.current x
      → Revoked now stored h.current x
  Revoked-Later g h l x (there, off) = (
    there,
    Off-later (Moved (λ e. e.id) (revoke now) h.revoked_exports) (λ e. e.id == x)
        (λ e. not (is_revoked_at now e))
        (λ a b m. elim m [
          | inl same ↦ ap (λ e. e.id == x) same
          | inr moved ↦ ap (λ e. e.id == x) (moved.0)
        ])
        (λ a b m was. elim m [
          | inl same ↦ ap (λ e. not (is_revoked_at now e)) same ∙ was
          | inr moved ↦ ap (λ e. not (is_revoked_at now e)) (moved.0) ∙ ground arith
        ])
        g.current.exports h.current.exports l.exports off,
  )

  Withdrawn-Later :
      (g h : Graph)
      → Later now g h
      → (x : ℕ) → Withdrawn now stored g.current x
      → Withdrawn now stored h.current x
  Withdrawn-Later g h l x (inl (there, off)) = inl (
    there,
    Off-later (Moved (λ a. a.id) lower h.invalidated) (λ a. a.id == x) (λ a. is_ready a.status)
        (λ a b m. elim m [
          | inl same ↦ ap (λ r. r.id == x) same
          | inr moved ↦ ap (λ r. r.id == x) (moved.0) ∙ ap (λ i. i == x) (lower_id a)
        ])
        (λ a b m was. elim m [
          | inl same ↦ ap (λ r. is_ready r.status) same ∙ was
          | inr moved ↦ ap (λ r. is_ready r.status) (moved.0) ∙ lower-off a
        ])
        g.current.artifacts h.current.artifacts l.artifacts off,
  )
  Withdrawn-Later g h l x (inr (inl (there, off))) = inr (
      inl (
        there,
        Off-later (Moved (λ r. r.id) supersede_run h.invalidated) (λ r. r.id == x)
            (λ r. not (is_superseded_status r.status))
            (λ a b m. elim m [
              | inl same ↦ ap (λ r. r.id == x) same
              | inr moved ↦ ap (λ r. r.id == x) (moved.0)
            ])
            (λ a b m was. elim m [
              | inl same ↦ ap (λ r. not (is_superseded_status r.status)) same ∙ was
              | inr moved ↦ ap (λ r. not (is_superseded_status r.status)) (moved.0)
            ])
            g.current.translation_runs h.current.translation_runs l.runs off,
      ))
  Withdrawn-Later g h l x (inr (inr gone)) = inr (inr (Revoked-Later g h l x gone))

  -- A later state whose new identifiers are withdrawn.
  pub Listed-Later :
      (g h : Graph)
      → Later now g h
      → ((x : ℕ)
          → is_in x h.invalidated ≡ true
          → (is_in x g.invalidated ≡ true) ⊎ Withdrawn now stored h.current x)
      → ((x : ℕ)
          → is_in x h.revoked_exports ≡ true
          → (is_in x g.revoked_exports ≡ true) ⊎ Revoked now stored h.current x)
      → Listed g
      → Listed h
  Listed-Later g h l new newly listed = record {
    down = λ x i. elim (new x i) [
      | inl old ↦ Withdrawn-Later g h l x (listed.down x old)
      | inr gone ↦ gone
    ];
    revoked = λ x i. elim (newly x i) [
      | inl old ↦ Revoked-Later g h l x (listed.revoked x old)
      | inr gone ↦ gone
    ];
  }

  in_added :
      (P : ℕ → Type 0) (k : ℕ) (ids : List ℕ)
      → P k
      → (x : ℕ) → is_in x (add_id k ids) ≡ true
      → (is_in x ids ≡ true) ⊎ P x
  in_added P k ids p x h = elim (Bool-cases (k == x)) [
    | inl here ↦ inr (subst P ((==_iff k x).0 here) p)
    | inr away ↦ inl (ground (arith, away, sym (is_in-add_id x k ids) ∙ h))
  ]

  pub supersede_artifact-Listed :
      (a : Artifact)
      → HasArtifact a.id stored.artifacts
      → (g : Graph) → Listed g
      → Listed (supersede_artifact a g)
  unfolding supersede_artifact
  supersede_artifact-Listed a there g =
      Listed-Later g (supersede_artifact a g) (supersede_artifact-Later now a g)
        (in_added (Withdrawn now stored (supersede_artifact a g).current) a.id g.invalidated (
          inl (
            there,
            Off-update (λ r. r.id == a.id) (λ r. is_ready r.status) lower lower-off
                g.current.artifacts,
          )))
        (λ x i. inl i)

  pub supersede_one_run-Listed :
      (r : TranslationRun)
      → HasRun r.id stored.translation_runs
      → (g : Graph) → Listed g
      → Listed (supersede_one_run r g)
  supersede_one_run-Listed r there g =
      Listed-Later g (supersede_one_run r g) (supersede_one_run-Later now r g)
        (in_added (Withdrawn now stored (supersede_one_run r g).current) r.id g.invalidated (
          inr (
            inl (
              there,
              Off-update (λ x. x.id == r.id) (λ x. not (is_superseded_status x.status))
                  supersede_run (λ x. refl) g.current.translation_runs,
            ))))
        (λ x i. inl i)

  pub revoke_row-Listed :
      (e : Export)
      → HasExport e.id stored.exports
      → (g : Graph) → Listed g
      → Listed (revoke_row now e g)
  revoke_row-Listed e there g =
      let gone : Revoked now stored (revoke_row now e g).current e.id = (
        there,
        Off-update (λ x. x.id == e.id) (λ x. not (is_revoked_at now x)) (revoke now)
            (λ x. ground arith) g.current.exports,
      ) in
      Listed-Later g (revoke_row now e g) (revoke_row-Later now e g)
        (in_added (Withdrawn now stored (revoke_row now e g).current) e.id g.invalidated
          (inr (inr gone)))
        (in_added (Revoked now stored (revoke_row now e g).current) e.id g.revoked_exports gone)

  -- A loop over rows that are stored.
  pub for_each-Listed :
      {A : Type 0} (E : A → Type 0) (body : A → Graph → Graph)
      → ((x : A) → E x → (g : Graph) → Listed g → Listed (body x g))
      → (xs : List A) → All E xs
      → (g : Graph) → Listed g
      → Listed (for_each body xs g)
  for_each-Listed E body step [] all g l = l
  for_each-Listed E body step (x ∷ xs) all g l =
      for_each-Listed E body step xs all.1 (body x g) (step x all.0 g l)

  pub for_all-Listed :
      {A : Type 0} (body : A → Graph → Graph)
      → ((x : A) (g : Graph) → Listed g → Listed (body x g))
      → (xs : List A) (g : Graph) → Listed g
      → Listed (for_each body xs g)
  for_all-Listed body step [] g l = l
  for_all-Listed body step (x ∷ xs) g l = for_all-Listed body step xs (body x g) (step x g l)

-- The rows that a query selects are in the table.
pub selected-there :
    {A : Type 0} (key : A → ℕ) (p : A → Bool) (rows : List A)
    → All (λ r. 1 ≤ count_where (λ s. key s == key r) rows) (select_where p rows)
unfolding select_where count_where
selected-there key p [] = tt
selected-there key p (x ∷ xs) =
    let rest =
      All-map (λ r. 1 ≤ count_where (λ s. key s == key r) xs)
        (λ r. 1 ≤ count_where (λ s. key s == key r) (x ∷ xs)) (select_where p xs)
        (λ r h. ground (arith, h)) (selected-there key p xs) in
    elim (Bool-cases (p x)) [ inl hit ↦ rw hit (ground arith, rest) | inr miss ↦ rw miss rest ]

pub found-there :
    {A : Type 0} (p : A → Bool) (rows : List A) {x : A}
    → find_where p rows ≡ some x
    → 1 ≤ count_where p rows
unfolding find_where count_where
found-there p [] h = cc
found-there p (y ∷ ys) {x} h = ground (arith, found-there p ys {x = x})
