-- ===== src/Projects/States.antt =====
-- backend/app/modules/projects/state_machine.py. Values that are no ChapterState are left to the types.
pub mod Pipeline
use truyenaudio_studio.Prelude.{ℕ, Bool, true, false, ◌||◌, List, [], ◌∷◌, ◌==◌, if◌then◌else◌}

pub data ChapterState : Type 0 where
  imported normalized translating translation_review translation_approved voice_configured :
      ChapterState
  tts_queued synthesizing audio_review ready_to_export exported failed : ChapterState

-- The states by number, for `==`.
abbrev pub number : ChapterState → ℕ
number imported = 0
number normalized = 1
number translating = 2
number translation_review = 3
number translation_approved = 4
number voice_configured = 5
number tts_queued = 6
number synthesizing = 7
number audio_review = 8
number ready_to_export = 9
number exported = 10
number failed = 11

abbrev pub state_eq : ChapterState → ChapterState → Bool
state_eq a b = number a == number b

abbrev pub is_member : ChapterState → List ChapterState → Bool
is_member s [] = false
is_member s (t ∷ ts) = state_eq s t || is_member s ts

-- ALLOWED_TRANSITIONS
abbrev pub allowed_transitions : ChapterState → List ChapterState
allowed_transitions imported = normalized ∷ failed ∷ []
allowed_transitions normalized = translating ∷ failed ∷ []
allowed_transitions translating = translation_review ∷ failed ∷ []
allowed_transitions translation_review = translation_approved ∷ failed ∷ []
allowed_transitions translation_approved = voice_configured ∷ failed ∷ []
allowed_transitions voice_configured = tts_queued ∷ failed ∷ []
allowed_transitions tts_queued = synthesizing ∷ failed ∷ []
allowed_transitions synthesizing = audio_review ∷ failed ∷ []
allowed_transitions audio_review = ready_to_export ∷ failed ∷ []
allowed_transitions ready_to_export = exported ∷ failed ∷ []
allowed_transitions exported = []
allowed_transitions failed = []

pub data Result (A : Type 0) : Type 0 where
  ok : A → Result A
  invalid_chapter_transition : Result A

unfoldable pub next_state : ChapterState → ChapterState → Result ChapterState
next_state current requested =
    if state_eq requested current
    then ok requested
    else if is_member requested (allowed_transitions current)
    then ok requested
    else invalid_chapter_transition
