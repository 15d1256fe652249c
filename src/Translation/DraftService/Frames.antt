-- ===== src/Translation/DraftService/Frames.antt =====
-- draft_frames of backend/app/modules/translation/draft_service.py, and build_stream_events of backend/app/api/drafts.py.
use truyenaudio_studio.Prelude.{
  ℕ, ◌+◌, ◌-◌, ◌≤◌, ◌==◌, ◌≡◌, refl, sym, ap, ◌∙◌, Bool, true, false, not, ◌&&◌, ◌||◌, Option, none,
  some, List, [], ◌∷◌, ◌++◌, ltb, leb, if◌then◌else◌, Bool-cases, inl, inr, arith,
}
use truyenaudio_studio.Prelude.Lists.{length}
use truyenaudio_studio.Translation.Text.{Text, join}
use truyenaudio_studio.Translation.DraftStream.{StreamStatus, drop}
use truyenaudio_studio.Translation.DraftStream.Bounded.{length_append}

pub record Frame : Type 0 where
  pub offset : ℕ
  pub text : Text

-- The loop over the texts, from an offset.
abbrev pub frames_from : ℕ → List Text → List Frame
frames_from offset [] = []
frames_from offset (text ∷ texts) =
    record { offset = offset + length text; text = text } ∷ frames_from (offset + length text) texts

-- frames[-max_frames:], which is all frames where max_frames is 0.
abbrev pub last_frames : ℕ → List Frame → List Frame
last_frames max_frames frames =
    if ltb max_frames (length frames)
    then if max_frames == 0 then frames else drop (length frames - max_frames) frames
    else frames

-- The snapshot of the stream, with what draft_snapshot adds to it. `approvable` is always False.
pub record DraftSnapshot : Type 0 where
  pub offset : ℕ
  pub text : Text
  pub gap : Bool
  pub status : StreamStatus
  pub truncated : Bool
  pub draft_revision : Option ℕ

-- The events with their ids: the data of a gap is the snapshot.
pub data StreamEvent : Type 0 where
  gap_event : DraftSnapshot → StreamEvent
  draft_event : Frame → StreamEvent
  terminal_event : ℕ → StreamStatus → StreamEvent

abbrev pub is_boundary : ℕ → List Frame → Bool
is_boundary cursor [] = false
is_boundary cursor (f ∷ fs) = f.offset == cursor || is_boundary cursor fs

-- The client's cursor is not at the end of a frame.
abbrev pub is_gap : List Frame → DraftSnapshot → Option ℕ → Bool
is_gap frames snapshot none = false
is_gap frames snapshot (some cursor) =
    not (cursor == 0) && not (is_boundary cursor frames) && ltb cursor snapshot.offset

abbrev pub is_seen : Option ℕ → Frame → Bool
is_seen none f = false
is_seen (some cursor) f = leb f.offset cursor

abbrev pub draft_events : Option ℕ → List Frame → List StreamEvent
draft_events cursor [] = []
draft_events cursor (f ∷ fs) =
    let rest = draft_events cursor fs in if is_seen cursor f then rest else draft_event f ∷ rest

unfoldable pub build_stream_events : List Frame → DraftSnapshot → Option ℕ → List StreamEvent
build_stream_events frames snapshot cursor =
    (if is_gap frames snapshot cursor then gap_event snapshot ∷ [] else [])
    ++ draft_events cursor frames
    ++ terminal_event snapshot.offset snapshot.status ∷ []

-- The text that a client appends for the events.
unfoldable pub appended : List StreamEvent → Text
appended [] = []
appended (gap_event snapshot ∷ es) = appended es
appended (draft_event f ∷ es) = f.text ++ appended es
appended (terminal_event offset status ∷ es) = appended es

unfoldable pub has_gap : List StreamEvent → Bool
has_gap [] = false
has_gap (gap_event snapshot ∷ es) = true
has_gap (draft_event f ∷ es) = has_gap es
has_gap (terminal_event offset status ∷ es) = has_gap es

module _ (offset : ℕ) (status : StreamStatus) where
  abbrev ended : Option ℕ → List Frame → List StreamEvent
  ended cursor fs = draft_events cursor fs ++ terminal_event offset status ∷ []

  -- Frames that end behind the cursor bring nothing.
  ended-before :
      (cursor start : ℕ) (before after : List Text)
      → start + length (join before) ≤ cursor
      → ended (some cursor) (frames_from start (before ++ after))
        ≡ ended (some cursor) (frames_from (start + length (join before)) after)
  ended-before cursor start [] after h =
      ap (λ o. ended (some cursor) (frames_from o after)) (omega arith)
  ended-before cursor start (text ∷ before) after h =
      let sum = length_append text (join before) in
      let seen : leb (start + length text) cursor ≡ true = ground (arith, h, sum) in
      let rest = ended-before cursor (start + length text) before after (omega (arith, h, sum)) in
      rw seen (rest ∙ ap (λ o. ended (some cursor) (frames_from o after)) (omega (arith, sum)))

  -- Frames from the cursor on bring their texts.
  appended-after :
      (cursor start : ℕ) (after : List Text)
      → cursor ≤ start
      → appended (ended (some cursor) (frames_from start after)) ≡ join after
  unfolding appended
  appended-after cursor start [] h = refl
  appended-after cursor start (text ∷ after) h =
      let rest = appended-after cursor (start + length text) after (omega (arith, h)) in
      elim (Bool-cases (leb (start + length text) cursor)) [
        | inr new ↦ rw new (ap (λ t. text ++ t) rest)
        | inl seen ↦
            rw seen (rest ∙ ap (λ t. t ++ join after) (empty_text text (ground (arith, h, seen))))
      ]
    where
      empty_text : (t : Text) → length t ≡ 0 → [] ≡ t
      empty_text [] e = refl
      empty_text (c ∷ t) e = absurd (ground (arith, e))

  appended-all :
      (start : ℕ) (texts : List Text) → appended (ended none (frames_from start texts)) ≡ join texts
  unfolding appended
  appended-all start [] = refl
  appended-all start (text ∷ texts) = ap (λ t. text ++ t) (appended-all (start + length text) texts)

  no_gap-ended : (cursor : Option ℕ) (fs : List Frame) → has_gap (ended cursor fs) ≡ false
  unfolding has_gap
  no_gap-ended cursor [] = refl
  no_gap-ended cursor (f ∷ fs) = elim (Bool-cases (is_seen cursor f)) [
    | inl seen ↦ rw seen (no_gap-ended cursor fs)
    | inr new ↦ rw new (no_gap-ended cursor fs)
  ]

-- The end of the texts before a frame is the start of the texts, or a boundary.
boundary-before :
    (start : ℕ) (text : Text) (before after : List Text)
    → is_boundary
        (start + length (join (text ∷ before)))
        (frames_from start ((text ∷ before) ++ after))
      ≡ true
boundary-before start text [] after = ground (arith, length_append text (join []))
boundary-before start text (next ∷ before) after =
    let same : start + length text + length (join (next ∷ before))
        ≡ start + length (join (text ∷ next ∷ before)) =
      omega (arith, length_append text (join (next ∷ before))) in
    let fs : List Frame = frames_from (start + length text) ((next ∷ before) ++ after) in
    let rest : is_boundary (start + length (join (text ∷ next ∷ before))) fs ≡ true =
      ap (λ c. is_boundary c fs) (sym same)
      ∙ boundary-before (start + length text) next before after in
    ground (arith, rest)

frames_length : (start : ℕ) (texts : List Text) → length (frames_from start texts) ≡ length texts
frames_length start [] = refl
frames_length start (text ∷ texts) = omega (arith, frames_length (start + length text) texts)

-- A client that has no text is told of no gap, nor is one whose cursor is the end of some first texts.
no_gap-cursor :
    (snapshot : DraftSnapshot) (before after : List Text)
    → is_gap (frames_from 0 (before ++ after)) snapshot (some (length (join before))) ≡ false
no_gap-cursor snapshot [] after = refl
no_gap-cursor snapshot (text ∷ before) after = ground (arith, boundary-before 0 text before after)

-- For at most max_frames texts and a client that has the first of them, whole, and says so by its cursor, no gap is sent,
-- and the drafts that are sent are the other texts; a client without a cursor is sent all texts.
pub build_stream_events-resume :
    (max_frames : ℕ) (snapshot : DraftSnapshot) (before after : List Text)
    → length (before ++ after) ≤ max_frames
    → (appended (
          build_stream_events
            (last_frames max_frames (frames_from 0 (before ++ after)))
            snapshot
            (some (length (join before))))
        ≡ join after)
      × (has_gap (
            build_stream_events
              (last_frames max_frames (frames_from 0 (before ++ after)))
              snapshot
              (some (length (join before))))
          ≡ false)
      × (appended (
            build_stream_events
              (last_frames max_frames (frames_from 0 (before ++ after)))
              snapshot
              none)
          ≡ join (before ++ after))
unfolding build_stream_events
build_stream_events-resume max_frames snapshot before after few =
    let all : last_frames max_frames (frames_from 0 (before ++ after))
        ≡ frames_from 0 (before ++ after) =
      rw (last_frames, within (frames_length 0 (before ++ after))) refl in
    let fs : List Frame = frames_from 0 (before ++ after) in
    let cursor : ℕ = length (join before) in
    let quiet = no_gap-cursor snapshot before after in
    rw all (
      rw quiet (
        ap appended
              (ended-before snapshot.offset snapshot.status cursor 0 before after (omega arith))
            ∙ appended-after snapshot.offset snapshot.status cursor (0 + cursor) after
                (omega arith),
        no_gap-ended snapshot.offset snapshot.status (some cursor) fs,
        appended-all snapshot.offset snapshot.status 0 (before ++ after),
      ))
  where
    within :
        length (frames_from 0 (before ++ after)) ≡ length (before ++ after)
        → ltb max_frames (length (frames_from 0 (before ++ after))) ≡ false
    within same = ground (arith, few, same)
