-- ===== src/Jobs/Examples.antt =====
-- The theorems on the queue at concrete inputs.
use truyenaudio_studio.Prelude.{
  List, Bool, ◌&&◌, ◌≡◌, ◌≤◌, ◌+◌, refl, true, false, none, some, [], ◌∷◌, ℕ, arith, count_where,
  select_where, find_where, update_where,
}
use truyenaudio_studio.Jobs.Schema.{Job, empty_db, succeeded, translate, seconds}
use truyenaudio_studio.Jobs.Tx.{aware, ok}
use truyenaudio_studio.Jobs.Retry.{classify_retry}
use truyenaudio_studio.Jobs.Rows.{
  find_job, current_attempt, is_event_of, max_marker, max_sequence_id, replace_job_event,
  order_rows, max_attempt_no,
}
use truyenaudio_studio.Jobs.Leases.{to_terminal, to_queued}
use truyenaudio_studio.Jobs.Runner.{claim, complete, enqueue, next_ready, JobLease}
use truyenaudio_studio.Jobs.Failure.{fail_job}
use truyenaudio_studio.Jobs.Recovery.{recover_expired}
use truyenaudio_studio.Jobs.Valid.{IsValid, open_count}
use truyenaudio_studio.Jobs.Trace.{
  claim_call, request_cancel_call, perform_all, perform_all-IsValid,
}
use truyenaudio_studio.Jobs.Trace.Final.{perform_all-final}
use truyenaudio_studio.Jobs.Trace.Settled.{HasStatus}
use truyenaudio_studio.Jobs.Trace.Recovers.{is_released, row_ids}
use truyenaudio_studio.Jobs.Trace.Ordered.{InOrder}
use truyenaudio_studio.Jobs.Trace.Complete.{
  is_abandoned, recover_expired-ok, recover_expired-releases, recover_expired-keeps,
}
use truyenaudio_studio.Jobs.Contract.Fencing.{
  HoldsLease, complete_needs, complete_succeeds, succeeded_row, succeeded_attempt,
}
use truyenaudio_studio.Jobs.Contract.Closing.{has_attempt_id}
use truyenaudio_studio.Jobs.Contract.Billing.{
  fail-billing_unknown, fail-requeues, unbilled_row, may_be_billed,
}
use truyenaudio_studio.Jobs.Contract.Claims.{Takes, claim-Takes}
use truyenaudio_studio.Jobs.Contract.Enqueues.{enqueue-again}
use truyenaudio_studio.Jobs.Contract.Feed.{replace_job_event-one_marker}
use truyenaudio_studio.Jobs.Scenario.{
  work_calls, first_job, second_job, running_job, first_attempt, queued_db, working_db, done_db,
  queued_db-IsValid, working_db-IsValid, working_db-HoldsLease, done_db-IsValid, timeout_unsent,
  timeout_sent,
}

perform_all-IsValid_example : IsValid (perform_all work_calls empty_db)
perform_all-IsValid_example = perform_all-IsValid work_calls

perform_all-final_example :
    HasStatus 1 succeeded
      (perform_all (request_cancel_call 1 (aware 4000) ∷ claim_call 6 12 (aware 5000) ∷ []) done_db)
unfolding find_job find_where
perform_all-final_example =
    perform_all-final (request_cancel_call 1 (aware 4000) ∷ claim_call 6 12 (aware 5000) ∷ [])
      done_db 1 succeeded done_db-IsValid
      (to_terminal succeeded 3000 (some 9) none none running_job, refl, refl) refl

complete_needs_example : HoldsLease working_db 1 5 11 3000
unfolding complete find_job current_attempt find_where count_where update_where
complete_needs_example =
    complete_needs 1 5 11 3000 (some 9) working_db
      {row = to_terminal succeeded 3000 (some 9) none none running_job} refl

complete_succeeds_example :
    let out = complete 1 (some 9) 5 11 (aware 3000) working_db in
    (out.0 ≡ ok (succeeded_row 3000 (some 9) running_job))
    × (find_job 1 out.1.jobs ≡ some (succeeded_row 3000 (some 9) running_job))
    × (find_where (has_attempt_id 11) out.1.attempts ≡ some (succeeded_attempt 3000 first_attempt))
    × (open_count 1 out.1.attempts ≡ 0)
unfolding working_db-HoldsLease
complete_succeeds_example =
    complete_succeeds 1 5 11 3000 (some 9) working_db working_db-IsValid working_db-HoldsLease

fail-billing_unknown_example :
    ((fail_job 1 timeout_sent 5 11 (aware 3000) working_db).0
      ≡ ok (unbilled_row 3000 timeout_sent running_job))
    × (find_job 1 (fail_job 1 timeout_sent 5 11 (aware 3000) working_db).1.jobs
        ≡ some (unbilled_row 3000 timeout_sent running_job))
unfolding working_db-HoldsLease
fail-billing_unknown_example =
    fail-billing_unknown 1 5 11 3000 timeout_sent working_db working_db-IsValid
      working_db-HoldsLease refl

fail-requeues_example :
    (may_be_billed timeout_unsent first_attempt ≡ false)
    × (timeout_unsent.retryable ≡ true)
    × (1 ≤ 1)
    × (1 ≤ 3)
    × ((d : ℕ) × (some (3000 + seconds 2) ≡ some (3000 + seconds d)) × (d ≤ 600))
unfolding fail_job find_job current_attempt find_where count_where update_where classify_retry
    working_db-HoldsLease
fail-requeues_example =
    fail-requeues 1 5 11 3000 timeout_unsent working_db working_db-IsValid working_db-HoldsLease
      (to_queued 3000 (3000 + seconds 2) timeout_unsent running_job) refl refl

recover_expired-ok_example :
    (rows : List Job) × ((recover_expired (aware (seconds 200)) working_db).0 ≡ ok (row_ids rows))
    × ((p : Job → Bool)
        → count_where p rows
          ≡ count_where (λ j. is_abandoned (seconds 200) j && p j) working_db.jobs)
    × InOrder rows
recover_expired-ok_example = recover_expired-ok working_db working_db-IsValid (seconds 200)

recover_expired-releases_example :
    is_released 1 (recover_expired (aware (seconds 200)) working_db).1 ≡ true
unfolding find_job find_where
recover_expired-releases_example =
    recover_expired-releases working_db working_db-IsValid (seconds 200) 1 running_job refl refl

recover_expired-keeps_example :
    find_job 2 (recover_expired (aware (seconds 200)) working_db).1.jobs ≡ some second_job
unfolding find_job find_where
recover_expired-keeps_example =
    recover_expired-keeps working_db working_db-IsValid (seconds 200) 2 second_job refl refl

abbrev first_lease : JobLease
first_lease = record {
  job_id = 1;
  kind = translate;
  worker_id = 5;
  attempt_id = 11;
  attempt_no = 1;
  lease_expires_at = 2000 + seconds 60;
  heartbeat_at = 2000;
}

claim-Takes_example :
    (r : _) × Takes 5 2000 queued_db first_lease (claim 5 11 (aware 2000) queued_db).1 r
unfolding claim next_ready order_rows select_where count_where update_where max_attempt_no
claim-Takes_example = claim-Takes 5 11 2000 queued_db queued_db-IsValid first_lease refl

enqueue-again_example :
    enqueue 3 translate 7
      (some 4)
      42
      1
      (some "plan")
      9000
      (enqueue 1 translate 7 none 42 100 none 1000 empty_db).1
    ≡ (ok first_job, (enqueue 1 translate 7 none 42 100 none 1000 empty_db).1)
unfolding enqueue select_where count_where
enqueue-again_example =
    enqueue-again 7 translate 42 1 none 100 none 1000 empty_db first_job 3 (some 4) 1 (some "plan")
      9000 refl

replace_job_event-one_marker_example :
    (count_where (is_event_of 1) (replace_job_event 1 5000 done_db.events) ≡ 1)
    × (max_marker 1 (replace_job_event 1 5000 done_db.events) ≡ max_sequence_id done_db.events + 1)
    × (count_where (is_event_of 2) (replace_job_event 1 5000 done_db.events)
        ≡ count_where (is_event_of 2) done_db.events)
replace_job_event-one_marker_example =
    replace_job_event-one_marker 1 5000 done_db.events 2 (omega arith)
