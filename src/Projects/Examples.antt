-- ===== src/Projects/Examples.antt =====
-- Runs of the workflow of a chapter.
use truyenaudio_studio.Prelude.{◌≡◌, refl, true, List, [], ◌∷◌}
use truyenaudio_studio.Projects.States.{
  ChapterState, audio_review, ready_to_export, exported, synthesizing, next_state,
}
use truyenaudio_studio.Projects.States.Pipeline.{
  request_all, stages_after, occur_in_order, request_all-stages,
}

-- One request comes too early, and one twice.
abbrev requests : List ChapterState
requests = exported ∷ audio_review ∷ audio_review ∷ ready_to_export ∷ exported ∷ []

requests_run : request_all synthesizing requests ≡ exported
unfolding next_state
requests_run = refl

request_all-stages_example : occur_in_order (stages_after synthesizing) requests ≡ true
request_all-stages_example = request_all-stages synthesizing requests requests_run
