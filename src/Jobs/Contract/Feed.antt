-- ===== src/Jobs/Contract/Feed.antt =====
-- The event feed: `_replace_job_event` leaves one marker of a job, the newest row of the table.
use truyenaudio_studio.Prelude.{
  ℕ, ◌≡◌, ◌≢◌, ◌≤◌, refl, ◌∙◌, ◌+◌, max, true, List, [], ◌∷◌, ◌++◌, arith, count-append,
  count_where, delete_where,
}
use truyenaudio_studio.Jobs.Schema.{EventLog}
use truyenaudio_studio.Jobs.Rows.{
  is_event_of, max_marker, max_sequence_id, new_event, is_older_marker, replace_job_event,
}

max_marker_le :
    (job_id : ℕ) (events : List EventLog) → max_marker job_id events ≤ max_sequence_id events
unfolding max_marker max_sequence_id
max_marker_le job_id [] = ground arith
max_marker_le job_id (e ∷ es) = ground (arith, max_marker_le job_id es)

max_marker-append :
    (job_id : ℕ) (events : List EventLog) (e : EventLog)
    → is_event_of job_id e ≡ true
    → max_marker job_id (events ++ e ∷ []) ≡ max (max_marker job_id events) e.sequence_id
unfolding max_marker
max_marker-append job_id [] e h = ground (arith, h)
max_marker-append job_id (x ∷ xs) e h = ground (arith, h, max_marker-append job_id xs e h)

module _ (job_id now : ℕ) where
  -- Against a newer marker every marker of the rows before it is deleted, and it stays.
  kept_markers :
      (e : EventLog) (events : List EventLog)
      → is_event_of job_id e ≡ true
      → max_sequence_id events + 1 ≤ e.sequence_id
      → (count_where
            (is_event_of job_id)
            (delete_where (is_older_marker job_id e.sequence_id) (events ++ e ∷ []))
          ≡ 1)
        × (max_marker job_id
              (delete_where (is_older_marker job_id e.sequence_id) (events ++ e ∷ []))
            ≡ e.sequence_id)
  unfolding max_sequence_id max_marker count_where delete_where
  kept_markers e [] h le = (ground (arith, h), ground (arith, h))
  kept_markers e (x ∷ xs) h le =
      let rest = kept_markers e xs h (ground (arith, le)) in
      (ground (arith, h, le, rest.0), ground (arith, h, le, rest.1))

  kept_others :
      (other newest : ℕ) (events : List EventLog)
      → other ≢ job_id
      → count_where (is_event_of other) (delete_where (is_older_marker job_id newest) events)
        ≡ count_where (is_event_of other) events
  unfolding count_where delete_where
  kept_others other newest [] h = refl
  kept_others other newest (x ∷ xs) h = ground (arith, h, kept_others other newest xs h)

  others_count :
      (other : ℕ)
      → other ≢ job_id
      → (events : List EventLog)
      → count_where (is_event_of other) events
          + count_where (is_event_of other) (new_event job_id now events ∷ [])
        ≡ count_where (is_event_of other) events
  unfolding count_where
  others_count other apart events = ground (arith, apart)

  -- After `_replace_job_event` the table holds exactly one marker of the job, its number is one more than
  -- every number the table had, and another job has as many markers as before.
  pub replace_job_event-one_marker :
      (events : List EventLog) (other : ℕ)
      → other ≢ job_id
      → (count_where (is_event_of job_id) (replace_job_event job_id now events) ≡ 1)
        × (max_marker job_id (replace_job_event job_id now events) ≡ max_sequence_id events + 1)
        × (count_where (is_event_of other) (replace_job_event job_id now events)
            ≡ count_where (is_event_of other) events)
  unfolding replace_job_event
  replace_job_event-one_marker events other apart =
      let e = new_event job_id now events in
      let own : is_event_of job_id e ≡ true = ground arith in
      let newest : max_marker job_id (events ++ e ∷ []) ≡ e.sequence_id =
        ground (arith, max_marker-append job_id events e own, max_marker_le job_id events) in
      let kept = kept_markers e events own (ground arith) in
      (
        rw newest kept.0,
        rw newest kept.1,
        kept_others other (max_marker job_id (events ++ e ∷ [])) (events ++ e ∷ []) apart
            ∙ count-append (is_event_of other) events (e ∷ [])
            ∙ others_count other apart events,
      )
