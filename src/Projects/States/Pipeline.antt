-- ===== src/Projects/States/Pipeline.antt =====
-- Chapters go through the stages in order.
use truyenaudio_studio.Prelude.{
  ℕ, zero, suc, ◌≡◌, refl, sym, ap, ◌∙◌, subst, ◌⊎◌, inl, inr, Bool, true, false, List, [], ◌∷◌,
  if◌then◌else◌, arith, Bool-cases,
}
use truyenaudio_studio.Projects.States.{
  ChapterState, imported, normalized, translating, translation_review, translation_approved,
  voice_configured, tts_queued, synthesizing, audio_review, ready_to_export, exported, failed,
  number, state_eq, allowed_transitions, Result, ok, invalid_chapter_transition, next_state,
}

abbrev pub result_or : ChapterState → Result ChapterState → ChapterState
result_or current (ok s) = s
result_or current invalid_chapter_transition = current

-- The state after a request; one that is refused leaves it.
abbrev pub after_request : ChapterState → ChapterState → ChapterState
after_request current requested = result_or current (next_state current requested)

abbrev pub request_all : ChapterState → List ChapterState → ChapterState
request_all current [] = current
request_all current (requested ∷ rest) = request_all (after_request current requested) rest

abbrev pub stages : List ChapterState
stages =
    normalized ∷ translating ∷ translation_review ∷ translation_approved ∷ voice_configured
    ∷ tts_queued ∷ synthesizing ∷ audio_review ∷ ready_to_export ∷ exported ∷ []

abbrev skip : ℕ → List ChapterState → List ChapterState
skip zero ss = ss
skip (suc n) [] = []
skip (suc n) (s ∷ ss) = skip n ss

-- The stages between a state and the export.
abbrev pub stages_after : ChapterState → List ChapterState
stages_after s = skip (number s) stages

-- The states occur in the list in this order, perhaps with others between them.
unfoldable pub occur_in_order : List ChapterState → List ChapterState → Bool
occur_in_order [] requests = true
occur_in_order (s ∷ ss) [] = false
occur_in_order (s ∷ ss) (r ∷ rs) =
    let found = occur_in_order ss rs in
    let skipped = occur_in_order (s ∷ ss) rs in if state_eq s r then found else skipped

abbrev nth : ℕ → List ChapterState → ChapterState
nth n [] = failed
nth zero (s ∷ ss) = s
nth (suc n) (s ∷ ss) = nth n ss

abbrev of_number : ℕ → ChapterState
of_number n = nth n (imported ∷ stages)

of_number-number : (s : ChapterState) → of_number (number s) ≡ s
of_number-number imported = refl
of_number-number normalized = refl
of_number-number translating = refl
of_number-number translation_review = refl
of_number-number translation_approved = refl
of_number-number voice_configured = refl
of_number-number tts_queued = refl
of_number-number synthesizing = refl
of_number-number audio_review = refl
of_number-number ready_to_export = refl
of_number-number exported = refl
of_number-number failed = refl

state_eq→≡ : (a b : ChapterState) → state_eq a b ≡ true → a ≡ b
state_eq→≡ a b h =
    let same : number a ≡ number b = ground (arith, h) in
    sym (of_number-number a) ∙ ap of_number same ∙ of_number-number b

occur-shorter :
    (s : ChapterState) (ss rs : List ChapterState)
    → occur_in_order (s ∷ ss) rs ≡ true
    → occur_in_order ss rs ≡ true
unfolding occur_in_order
occur-shorter s ss [] h = absurd (ground (arith, h))
occur-shorter s [] (r ∷ rs) h = refl
occur-shorter s (t ∷ ss) (r ∷ rs) h =
    let later : occur_in_order (t ∷ ss) rs ≡ true = elim (Bool-cases (state_eq s r)) [
      | inl hit ↦ ground (arith, h, hit)
      | inr miss ↦ occur-shorter s (t ∷ ss) rs (ground (arith, h, miss))
    ] in
    elim (Bool-cases (state_eq t r)) [
      | inl hit ↦ rw hit (occur-shorter t ss rs later)
      | inr miss ↦ rw miss later
    ]

occur-skip :
    (ss : List ChapterState) (r : ChapterState) (rs : List ChapterState)
    → occur_in_order ss rs ≡ true
    → occur_in_order ss (r ∷ rs) ≡ true
unfolding occur_in_order
occur-skip [] r rs h = refl
occur-skip (s ∷ ss) r rs h = elim (Bool-cases (state_eq s r)) [
  | inl hit ↦ rw hit (occur-shorter s ss rs h)
  | inr miss ↦ rw miss h
]

-- A state whose transitions lead to one next stage or to FAILED stays, fails, or goes to that stage.
abbrev Goes : ChapterState → ChapterState → ChapterState → Type 0
Goes current next requested =
    (after_request current requested ≡ current)
    ⊎ (after_request current requested ≡ failed)
    ⊎ ((after_request current requested ≡ next) × (requested ≡ next))

next_state-Goes :
    (current next requested : ChapterState)
    → allowed_transitions current ≡ next ∷ failed ∷ []
    → Goes current next requested
unfolding next_state
next_state-Goes current next requested h = elim (Bool-cases (state_eq requested current)) [
  | inl same ↦
      let granted : next_state current requested ≡ ok requested = rw (next_state, same) refl in
      inl (ap (result_or current) granted ∙ state_eq→≡ requested current same)
  | inr other ↦ elim (Bool-cases (state_eq requested next)) [
    | inl forward ↦
        let granted : next_state current requested ≡ ok requested =
          rw (next_state, other) (rw h (rw forward refl)) in
        let there = state_eq→≡ requested next forward in
        inr (inr (ap (result_or current) granted ∙ there, there))
    | inr no_step ↦ elim (Bool-cases (state_eq requested failed)) [
      | inl fails ↦
          let granted : next_state current requested ≡ ok requested =
            rw (next_state, other) (rw h (rw no_step (rw fails refl))) in
          inr (inl (ap (result_or current) granted ∙ state_eq→≡ requested failed fails))
      | inr off ↦
          let refused : next_state current requested ≡ invalid_chapter_transition =
            rw (next_state, other) (rw h (rw no_step (rw off refl))) in
          inl (ap (result_or current) refused)
    ]
  ]
]

-- FAILED and EXPORTED are final.
request_all-final :
    (current : ChapterState) (requests : List ChapterState)
    → allowed_transitions current ≡ []
    → request_all current requests ≡ current
unfolding next_state
request_all-final current [] h = refl
request_all-final current (r ∷ rs) h = elim (Bool-cases (state_eq r current)) [
  | inl same ↦
      let granted : next_state current r ≡ ok r = rw (next_state, same) refl in
      ap (λ s. request_all s rs) (ap (result_or current) granted ∙ state_eq→≡ r current same)
      ∙ request_all-final current rs h
  | inr other ↦
      let refused : next_state current r ≡ invalid_chapter_transition =
        rw (next_state, other) (rw h refl) in
      ap (λ s. request_all s rs) (ap (result_or current) refused) ∙ request_all-final current rs h
]

number_refl : (s : ChapterState) → state_eq s s ≡ true
number_refl s = ground arith

request-stages :
    (current next r : ChapterState) (rs : List ChapterState)
    → allowed_transitions current ≡ next ∷ failed ∷ []
    → stages_after current ≡ next ∷ stages_after next
    → request_all (after_request current r) rs ≡ exported
    → occur_in_order (stages_after (after_request current r)) rs ≡ true
    → occur_in_order (stages_after current) (r ∷ rs) ≡ true
unfolding occur_in_order
request-stages current next r rs allowed after h rest =
    elim (next_state-Goes current next r allowed) [
      | inl stays ↦
          occur-skip (stages_after current) r rs
            (subst (λ s. occur_in_order (stages_after s) rs ≡ true) stays rest)
      | inr (inl fails) ↦
          let ended : failed ≡ exported =
            sym (request_all-final failed rs refl) ∙ ap (λ s. request_all s rs) (sym fails) ∙ h in
          absurd (ground (arith, ended))
      | inr (inr (goes, same)) ↦
          let found : occur_in_order (next ∷ stages_after next) (next ∷ rs) ≡ true =
            rw (number_refl next)
              (subst (λ s. occur_in_order (stages_after s) rs ≡ true) goes rest) in
          ap (λ ss. occur_in_order ss (r ∷ rs)) after
          ∙ ap (λ q. occur_in_order (next ∷ stages_after next) (q ∷ rs)) same
          ∙ found
    ]

-- When a sequence of requests, of which those that are refused leave the state, takes a chapter from a state to EXPORTED,
-- then all stages between the two were requested, in the order of the pipeline.
pub request_all-stages :
    (current : ChapterState) (requests : List ChapterState)
    → request_all current requests ≡ exported
    → occur_in_order (stages_after current) requests ≡ true
unfolding occur_in_order
request_all-stages current [] h = ap (λ s. occur_in_order (stages_after s) []) h
request_all-stages imported (r ∷ rs) h =
    request-stages imported normalized r rs refl refl h
      (request_all-stages (after_request imported r) rs h)
request_all-stages normalized (r ∷ rs) h =
    request-stages normalized translating r rs refl refl h
      (request_all-stages (after_request normalized r) rs h)
request_all-stages translating (r ∷ rs) h =
    request-stages translating translation_review r rs refl refl h
      (request_all-stages (after_request translating r) rs h)
request_all-stages translation_review (r ∷ rs) h =
    request-stages translation_review translation_approved r rs refl refl h
      (request_all-stages (after_request translation_review r) rs h)
request_all-stages translation_approved (r ∷ rs) h =
    request-stages translation_approved voice_configured r rs refl refl h
      (request_all-stages (after_request translation_approved r) rs h)
request_all-stages voice_configured (r ∷ rs) h =
    request-stages voice_configured tts_queued r rs refl refl h
      (request_all-stages (after_request voice_configured r) rs h)
request_all-stages tts_queued (r ∷ rs) h =
    request-stages tts_queued synthesizing r rs refl refl h
      (request_all-stages (after_request tts_queued r) rs h)
request_all-stages synthesizing (r ∷ rs) h =
    request-stages synthesizing audio_review r rs refl refl h
      (request_all-stages (after_request synthesizing r) rs h)
request_all-stages audio_review (r ∷ rs) h =
    request-stages audio_review ready_to_export r rs refl refl h
      (request_all-stages (after_request audio_review r) rs h)
request_all-stages ready_to_export (r ∷ rs) h =
    request-stages ready_to_export exported r rs refl refl h
      (request_all-stages (after_request ready_to_export r) rs h)
request_all-stages exported (r ∷ rs) h = refl
request_all-stages failed (r ∷ rs) h = refl
