-- ===== src/Projects/Invalidation/Steps.antt =====
-- Every change of one row leads to a later state.
use truyenaudio_studio.Prelude.{
  ℕ, ◌≡◌, refl, sym, ap, ◌∙◌, true, none, List, ◌==◌, ==_iff, Bool-cases, inl, inr, arith,
  update_where,
}
use truyenaudio_studio.Prelude.Sets.{is_in, add_id, is_in-add_id}
use truyenaudio_studio.Prelude.Rows.Pairs.{All2, All2-refl, All2-update}
use truyenaudio_studio.Projects.Invalidation.Schema.{Chapter, TranslationRun, Artifact, Export}
use truyenaudio_studio.Projects.Invalidation.Graph.{
  Graph, lower, revoke, supersede_run, add_invalidated, add_revoked, update_chapter, update_exports,
  supersede_artifact, supersede_one_run,
}
use truyenaudio_studio.Projects.Invalidation.Later.{Moved, Includes, Settled, Settled-refl, Later}

pub Includes-add : (x : ℕ) (xs : List ℕ) → Includes xs (add_id x xs)
Includes-add x xs y h = is_in-add_id y x xs ∙ ground (arith, h)

Includes-both : (x : ℕ) (xs ys : List ℕ) → Includes xs ys → Includes (add_id x xs) (add_id x ys)
Includes-both x xs ys w y h = elim (Bool-cases (is_in y xs)) [
  | inl old ↦ is_in-add_id y x ys ∙ ground (arith, w y old)
  | inr new ↦ is_in-add_id y x ys ∙ ground (arith, new, sym (is_in-add_id y x xs) ∙ h)
]

pub in-add : (x : ℕ) (xs : List ℕ) → is_in x (add_id x xs) ≡ true
in-add x xs = is_in-add_id x x xs ∙ ground arith

-- The row of identifier `x` is moved, and `x` is added to the set.
pub Moved-update :
    {A : Type 0} (key : A → ℕ) (f : A → A) (x : ℕ) (ids : List ℕ) (rows : List A)
    → All2 (Moved key f (add_id x ids)) rows (update_where (λ r. key r == x) f rows)
Moved-update key f x ids rows =
    All2-update (Moved key f (add_id x ids)) (λ r. key r == x) f (λ r. inl refl)
      (λ r hit.
        inr (refl, ap (λ i. is_in i (add_id x ids)) ((==_iff (key r) x).0 hit) ∙ in-add x ids))
      rows

abbrev pub clear_export : Chapter → Chapter
clear_export c = record c { last_export_id = none }

abbrev pub clear_master : Chapter → Chapter
clear_master c = record c { approved_master_artifact_id = none; audio_approved_at = none }

abbrev pub clear_translation : Chapter → Chapter
clear_translation c = record c {
  approved_translation_run_id = none;
  translation_approved_at = none;
  active_voice_plan_id = none;
}

pub clear_export-Settled : (c : Chapter) → Settled c (clear_export c)
clear_export-Settled c = record {
  same_id = refl;
  same_project = refl;
  same_ordinal = refl;
  run = inl refl;
  run_time = inl refl;
  voice_plan = inl refl;
  master = inl refl;
  master_time = inl refl;
  export = inr refl;
}

pub clear_master-Settled : (c : Chapter) → Settled c (clear_master c)
clear_master-Settled c = record {
  same_id = refl;
  same_project = refl;
  same_ordinal = refl;
  run = inl refl;
  run_time = inl refl;
  voice_plan = inl refl;
  master = inr refl;
  master_time = inr refl;
  export = inl refl;
}

pub clear_translation-Settled : (c : Chapter) → Settled c (clear_translation c)
clear_translation-Settled c = record {
  same_id = refl;
  same_project = refl;
  same_ordinal = refl;
  run = inr refl;
  run_time = inr refl;
  voice_plan = inr refl;
  master = inl refl;
  master_time = inl refl;
  export = inl refl;
}

module _ (now : ℕ) where
  pub supersede_artifact-Later : (a : Artifact) (g : Graph) → Later now g (supersede_artifact a g)
  unfolding supersede_artifact
  supersede_artifact-Later a g = record {
    artifacts = Moved-update (λ r. r.id) lower a.id g.invalidated g.current.artifacts;
    exports =
        All2-refl (Moved (λ e. e.id) (revoke now) g.revoked_exports) (λ e. inl refl)
          g.current.exports;
    runs =
        All2-refl (Moved (λ r. r.id) supersede_run (add_id a.id g.invalidated)) (λ r. inl refl)
          g.current.translation_runs;
    chapters = All2-refl Settled Settled-refl g.current.chapters;
    more = Includes-add a.id g.invalidated;
    more_revoked = λ x h. h;
    within = λ w x h. Includes-add a.id g.invalidated x (w x h);
    speech = refl;
  }

  pub supersede_one_run-Later :
      (r : TranslationRun) (g : Graph) → Later now g (supersede_one_run r g)
  supersede_one_run-Later r g = record {
    artifacts =
        All2-refl (Moved (λ a. a.id) lower (add_id r.id g.invalidated)) (λ a. inl refl)
          g.current.artifacts;
    exports =
        All2-refl (Moved (λ e. e.id) (revoke now) g.revoked_exports) (λ e. inl refl)
          g.current.exports;
    runs = Moved-update (λ r. r.id) supersede_run r.id g.invalidated g.current.translation_runs;
    chapters = All2-refl Settled Settled-refl g.current.chapters;
    more = Includes-add r.id g.invalidated;
    more_revoked = λ x h. h;
    within = λ w x h. Includes-add r.id g.invalidated x (w x h);
    speech = refl;
  }

  abbrev pub revoke_row : Export → Graph → Graph
  revoke_row e g =
      add_revoked e.id
        (add_invalidated e.id (update_exports (update_where (λ x. x.id == e.id) (revoke now)) g))

  pub revoke_row-Later : (e : Export) (g : Graph) → Later now g (revoke_row e g)
  revoke_row-Later e g = record {
    artifacts =
        All2-refl (Moved (λ a. a.id) lower (add_id e.id g.invalidated)) (λ a. inl refl)
          g.current.artifacts;
    exports = Moved-update (λ r. r.id) (revoke now) e.id g.revoked_exports g.current.exports;
    runs =
        All2-refl (Moved (λ r. r.id) supersede_run (add_id e.id g.invalidated)) (λ r. inl refl)
          g.current.translation_runs;
    chapters = All2-refl Settled Settled-refl g.current.chapters;
    more = Includes-add e.id g.invalidated;
    more_revoked = Includes-add e.id g.revoked_exports;
    within = Includes-both e.id g.revoked_exports g.invalidated;
    speech = refl;
  }

  pub update_chapter-Later :
      (chapter_id : ℕ) (f : Chapter → Chapter)
      → ((c : Chapter) → Settled c (f c))
      → (g : Graph) → Later now g (update_chapter chapter_id f g)
  update_chapter-Later chapter_id f settles g = record {
    artifacts =
        All2-refl (Moved (λ a. a.id) lower g.invalidated) (λ a. inl refl) g.current.artifacts;
    exports =
        All2-refl (Moved (λ e. e.id) (revoke now) g.revoked_exports) (λ e. inl refl)
          g.current.exports;
    runs =
        All2-refl (Moved (λ r. r.id) supersede_run g.invalidated) (λ r. inl refl)
          g.current.translation_runs;
    chapters =
        All2-update Settled (λ c. c.id == chapter_id) f Settled-refl (λ c _. settles c)
          g.current.chapters;
    more = λ x h. h;
    more_revoked = λ x h. h;
    within = λ w. w;
    speech = refl;
  }
