-- ===== src/Projects/Invalidation/Later.antt =====
-- The states that the operations of InvalidationGraph lead to: rows are superseded, revoked and cleared, and nothing else.
use truyenaudio_studio.Prelude.{
  ℕ, ◌≡◌, refl, sym, ap, ◌∙◌, true, Option, none, List, [], ◌∷◌, Bool-cases, ◌⊎◌, inl, inr,
}
use truyenaudio_studio.Prelude.Sets.{is_in}
use truyenaudio_studio.Prelude.Rows.Pairs.{All2, All2-refl, All2-trans}
use truyenaudio_studio.Projects.Invalidation.Schema.{is_ready, Chapter, Artifact}
use truyenaudio_studio.Projects.Invalidation.Graph.{Graph, lower, revoke, supersede_run, for_each}

-- The row is kept, or `f` was applied to it and its identifier is in `ids`.
abbrev pub Moved : {A : Type 0} → (A → ℕ) → (A → A) → List ℕ → A → A → Type 0
Moved key f ids x y = (y ≡ x) ⊎ ((y ≡ f x) × (is_in (key x) ids ≡ true))

abbrev pub Includes : List ℕ → List ℕ → Type 0
Includes xs ys = (x : ℕ) → is_in x xs ≡ true → is_in x ys ≡ true

abbrev pub KeptOrNone : Option ℕ → Option ℕ → Type 0
KeptOrNone o p = (p ≡ o) ⊎ (p ≡ none)

pub record Settled (c d : Chapter) : Type 0 where
  pub same_id : d.id ≡ c.id
  pub same_project : d.project_id ≡ c.project_id
  pub same_ordinal : d.ordinal ≡ c.ordinal
  pub run : KeptOrNone c.approved_translation_run_id d.approved_translation_run_id
  pub run_time : KeptOrNone c.translation_approved_at d.translation_approved_at
  pub voice_plan : KeptOrNone c.active_voice_plan_id d.active_voice_plan_id
  pub master : KeptOrNone c.approved_master_artifact_id d.approved_master_artifact_id
  pub master_time : KeptOrNone c.audio_approved_at d.audio_approved_at
  pub export : KeptOrNone c.last_export_id d.last_export_id

pub record Later (now : ℕ) (g h : Graph) : Type 0 where
  pub artifacts :
      All2 (Moved (λ a. a.id) lower h.invalidated) g.current.artifacts h.current.artifacts
  pub exports :
      All2 (Moved (λ e. e.id) (revoke now) h.revoked_exports) g.current.exports h.current.exports
  pub runs :
      All2
        (Moved (λ r. r.id) supersede_run h.invalidated)
        g.current.translation_runs
        h.current.translation_runs
  pub chapters : All2 Settled g.current.chapters h.current.chapters
  pub more : Includes g.invalidated h.invalidated
  pub more_revoked : Includes g.revoked_exports h.revoked_exports
  pub within : Includes g.revoked_exports g.invalidated → Includes h.revoked_exports h.invalidated
  pub speech : h.current.speech_segments ≡ g.current.speech_segments

-- A row that is moved twice is moved once.
pub Moved-trans :
    {A : Type 0} (key : A → ℕ) (f : A → A) (ids later : List ℕ)
    → ((x : A) → key (f x) ≡ key x)
    → ((x : A) → f (f x) ≡ f x)
    → Includes ids later
    → (x y z : A) → Moved key f ids x y
    → Moved key f later y z
    → Moved key f later x z
Moved-trans key f ids later same idem more x y z (inl a) (inl b) = inl (b ∙ a)
Moved-trans key f ids later same idem more x y z (inl a) (inr b) =
    inr (b.0 ∙ ap f a, ap (λ r. is_in (key r) later) (sym a) ∙ b.1)
Moved-trans key f ids later same idem more x y z (inr a) (inl b) = inr (b ∙ a.0, more (key x) a.1)
Moved-trans key f ids later same idem more x y z (inr a) (inr b) =
    inr (b.0 ∙ ap f a.0 ∙ idem x, more (key x) a.1)

pub KeptOrNone-trans : (o p q : Option ℕ) → KeptOrNone o p → KeptOrNone p q → KeptOrNone o q
KeptOrNone-trans o p q (inl a) (inl b) = inl (b ∙ a)
KeptOrNone-trans o p q (inr a) (inl b) = inr (b ∙ a)
KeptOrNone-trans o p q a (inr b) = inr b

pub Settled-refl : (c : Chapter) → Settled c c
Settled-refl c = record {
  same_id = refl;
  same_project = refl;
  same_ordinal = refl;
  run = inl refl;
  run_time = inl refl;
  voice_plan = inl refl;
  master = inl refl;
  master_time = inl refl;
  export = inl refl;
}

pub Settled-trans : (c d e : Chapter) → Settled c d → Settled d e → Settled c e
Settled-trans c d e a b = record {
  same_id = b.same_id ∙ a.same_id;
  same_project = b.same_project ∙ a.same_project;
  same_ordinal = b.same_ordinal ∙ a.same_ordinal;
  run =
      KeptOrNone-trans c.approved_translation_run_id d.approved_translation_run_id
        e.approved_translation_run_id a.run b.run;
  run_time =
      KeptOrNone-trans c.translation_approved_at d.translation_approved_at e.translation_approved_at
        a.run_time b.run_time;
  voice_plan =
      KeptOrNone-trans c.active_voice_plan_id d.active_voice_plan_id e.active_voice_plan_id
        a.voice_plan b.voice_plan;
  master =
      KeptOrNone-trans c.approved_master_artifact_id d.approved_master_artifact_id
        e.approved_master_artifact_id a.master b.master;
  master_time =
      KeptOrNone-trans c.audio_approved_at d.audio_approved_at e.audio_approved_at a.master_time
        b.master_time;
  export = KeptOrNone-trans c.last_export_id d.last_export_id e.last_export_id a.export b.export;
}

pub lower-lower : (a : Artifact) → lower (lower a) ≡ lower a
lower-lower a = elim (Bool-cases (is_ready a.status)) [
  | inl h ↦ rw h refl
  | inr h ↦ rw h (rw h refl)
]

pub lower_id : (a : Artifact) → (lower a).id ≡ a.id
lower_id a = elim (Bool-cases (is_ready a.status)) [ inl h ↦ rw h refl | inr h ↦ rw h refl ]

module _ (now : ℕ) where
  pub Later-refl : (g : Graph) → Later now g g
  Later-refl g = record {
    artifacts =
        All2-refl (Moved (λ a. a.id) lower g.invalidated) (λ a. inl refl) g.current.artifacts;
    exports =
        All2-refl (Moved (λ e. e.id) (revoke now) g.revoked_exports) (λ e. inl refl)
          g.current.exports;
    runs =
        All2-refl (Moved (λ r. r.id) supersede_run g.invalidated) (λ r. inl refl)
          g.current.translation_runs;
    chapters = All2-refl Settled Settled-refl g.current.chapters;
    more = λ x h. h;
    more_revoked = λ x h. h;
    within = λ w. w;
    speech = refl;
  }

  pub Later-trans : (g h i : Graph) → Later now g h → Later now h i → Later now g i
  Later-trans g h i a b = record {
    artifacts =
        All2-trans (Moved (λ r. r.id) lower h.invalidated) (Moved (λ r. r.id) lower i.invalidated)
          (Moved (λ r. r.id) lower i.invalidated)
          (Moved-trans (λ r. r.id) lower h.invalidated i.invalidated lower_id lower-lower b.more)
          g.current.artifacts h.current.artifacts i.current.artifacts a.artifacts b.artifacts;
    exports =
        All2-trans (Moved (λ r. r.id) (revoke now) h.revoked_exports)
          (Moved (λ r. r.id) (revoke now) i.revoked_exports)
          (Moved (λ r. r.id) (revoke now) i.revoked_exports)
          (Moved-trans (λ r. r.id) (revoke now) h.revoked_exports i.revoked_exports (λ e. refl)
            (λ e. refl) b.more_revoked)
          g.current.exports h.current.exports i.current.exports a.exports b.exports;
    runs =
        All2-trans (Moved (λ r. r.id) supersede_run h.invalidated)
          (Moved (λ r. r.id) supersede_run i.invalidated)
          (Moved (λ r. r.id) supersede_run i.invalidated)
          (Moved-trans (λ r. r.id) supersede_run h.invalidated i.invalidated (λ e. refl) (λ e. refl)
            b.more)
          g.current.translation_runs h.current.translation_runs i.current.translation_runs a.runs
          b.runs;
    chapters =
        All2-trans Settled Settled Settled Settled-trans g.current.chapters h.current.chapters
          i.current.chapters a.chapters b.chapters;
    more = λ x h. b.more x (a.more x h);
    more_revoked = λ x h. b.more_revoked x (a.more_revoked x h);
    within = λ w. b.within (a.within w);
    speech = b.speech ∙ a.speech;
  }

  pub Later-for_each :
      {A : Type 0} (body : A → Graph → Graph)
      → ((x : A) (g : Graph) → Later now g (body x g))
      → (xs : List A) (g : Graph) → Later now g (for_each body xs g)
  Later-for_each body step [] g = Later-refl g
  Later-for_each body step (x ∷ xs) g =
      Later-trans g (body x g) (for_each body xs (body x g)) (step x g)
        (Later-for_each body step xs (body x g))
