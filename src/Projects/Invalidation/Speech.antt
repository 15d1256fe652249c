-- ===== src/Projects/Invalidation/Speech.antt =====
-- The chapters of a list, and those that the loop of _invalidate_speech_segments finds.
use truyenaudio_studio.Prelude.{
  ℕ, ◌≡◌, sym, ap, ◌∙◌, subst, Bool, true, false, Option, none, some, List, [], ◌∷◌, ◌==◌, ==_iff,
  Bool-cases, Option-cases, inl, inr, arith, All, is_some, if◌then◌else◌, find_where_found,
}
use truyenaudio_studio.Prelude.Sets.{is_in, add_id, is_in-add_id}
use truyenaudio_studio.Projects.Invalidation.Schema.{Chapter, SpeechSegment, Db}
use truyenaudio_studio.Projects.Invalidation.Queries.{
  get_chapter, add_chapter, chapter_ids, segment_chapter_ids,
}
use truyenaudio_studio.Projects.Invalidation.Graph.{chapters_of_speech}

pub of_chapter :
    (P : ℕ → Type 0) (stored : Db) (chapter_id : ℕ) (cs : List Chapter)
    → is_in chapter_id (chapter_ids stored cs) ≡ true
    → All (λ c. P c.id) cs
    → P chapter_id
unfolding is_in
of_chapter P stored chapter_id [] h all = cc
of_chapter P stored chapter_id (c ∷ cs) h all = elim (Bool-cases (c.id == chapter_id)) [
  | inl here ↦ subst P ((==_iff c.id chapter_id).0 here) all.0
  | inr away ↦ of_chapter P stored chapter_id cs (ground (arith, h, away)) all.1
]

get_chapter_id :
    (stored : Db) (chapter_id : ℕ) (c : Chapter)
    → get_chapter stored chapter_id ≡ some c
    → c.id ≡ chapter_id
get_chapter_id stored chapter_id c found =
    (==_iff c.id chapter_id).0 (find_where_found (λ x. x.id == chapter_id) stored.chapters found)

seen_still :
    (known : Bool) (x y : ℕ) (seen : List ℕ)
    → (x == y) ≡ false
    → is_in y seen ≡ false
    → is_in y (if known then add_id x seen else seen) ≡ false
seen_still true x y seen other fresh = is_in-add_id y x seen ∙ ground (arith, other, fresh)
seen_still false x y seen other fresh = fresh

in-add_chapter :
    (stored : Db) (chapter_id : ℕ) (o : Option Chapter) (cs : List Chapter)
    → is_in chapter_id (chapter_ids stored cs) ≡ true
    → is_in chapter_id (chapter_ids stored (add_chapter stored o cs)) ≡ true
unfolding is_in
in-add_chapter stored chapter_id none cs h = h
in-add_chapter stored chapter_id (some c) cs h = ground (arith, h)

-- The loop over the segments finds the chapter of each, once.
pub chapters_of_speech_found :
    (stored : Db) (now chapter_id : ℕ) (seen : List ℕ) (ss : List SpeechSegment)
    → is_some (get_chapter stored chapter_id) ≡ true
    → is_in chapter_id (segment_chapter_ids stored ss) ≡ true
    → is_in chapter_id seen ≡ false
    → is_in chapter_id (chapter_ids stored (chapters_of_speech stored now seen ss)) ≡ true
unfolding chapters_of_speech is_in
chapters_of_speech_found stored now chapter_id seen [] exists h fresh = cc
chapters_of_speech_found stored now chapter_id seen (s ∷ ss) exists h fresh =
    elim (Bool-cases (s.chapter_id == chapter_id)) [
      | inl here ↦
          let same : s.chapter_id ≡ chapter_id = (==_iff s.chapter_id chapter_id).0 here in
          elim (Option-cases (get_chapter stored chapter_id)) [
            | inl missing ↦ absurd (ground (arith, sym (ap is_some missing) ∙ exists))
            | inr found ↦ rw (ap (λ i. is_in i seen) same ∙ fresh) (
                rw (ap (get_chapter stored) same ∙ found.1)
                  (ground (arith, get_chapter_id stored chapter_id found.0 found.1)))
          ]
      | inr away ↦
          let next : List ℕ =
            if is_some (get_chapter stored s.chapter_id) then add_id s.chapter_id seen else seen in
          let rest =
            chapters_of_speech_found stored now chapter_id next ss exists (ground (arith, h, away))
              (seen_still (is_some (get_chapter stored s.chapter_id)) s.chapter_id chapter_id seen
                away fresh) in
          elim (Bool-cases (is_in s.chapter_id seen)) [
            | inl old ↦ rw old rest
            | inr new ↦ rw new (
                in-add_chapter stored chapter_id (get_chapter stored s.chapter_id)
                  (chapters_of_speech stored now next ss) rest)
          ]
    ]
