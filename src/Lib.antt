-- ===== src/Lib.antt =====
-- Truyen Audio Studio translates serial novels and turns them into audiobooks. A worker process takes jobs
-- from a queue in the database, each job calls providers of translation and speech behind a circuit
-- breaker, and paid calls are authorized against a budget first. This library models the queue, the
-- breaker and the budget, the parts that decide when a paid request is sent, sent again or refused, and of
-- the translation what happens to the text: it is normalized, cut into segments, sent with a context that
-- fits a budget of tokens, and streamed back into a draft.
--
-- backend/app/modules/jobs/retry.py: Jobs/Retry.antt (classify_retry).
-- backend/app/modules/jobs/runner.py: Jobs/Schema.antt has the rows of the tables jobs, job_attempts
-- and event_log (backend/app/db/models.py) and the enumerations (backend/app/contracts.py);
-- Jobs/Tx.antt a call that reads and writes them, may raise, and rolls back; Jobs/Rows.antt the
-- queries; Jobs/Leases.antt the private methods of JobRunner; Jobs/Runner.antt with its children,
-- Jobs/Failure.antt (fail) and Jobs/Recovery.antt (recover_expired) the public ones, under their own
-- names. Each method is one transaction, so workers and clients that run at once give a sequence of
-- calls: Jobs/Trace.antt has the calls as data and runs a list of them. Jobs/Valid.antt is the
-- invariant of the tables, with one file for each kind of method; Jobs/Contract.antt has what single
-- methods promise.
--
-- backend/app/modules/execution/breaker.py: Execution/Breaker.antt (CircuitBreaker, with_breaker), with
-- what `_load` finds after each method in Breaker/Loads.antt and the cycle of the breaker in
-- Breaker/Cycle.antt. The function that is dispatched is a parameter that acts on a world of its own; it
-- does not write the breaker's table.
--
-- backend/app/modules/budgets/guard.py: Budgets/Money.antt the arithmetic, Budgets/Schema.antt the
-- rows and the session, Budgets/Totals.antt the sums spent or held, Budgets/Guard.antt quotes and
-- authorizations, Budgets/Metering.antt the pricing and booking of usage; Budgets/Spending.antt and
-- Guard/Limits.antt are about them. Amounts are naturals, and so are the units that commit_usage is
-- given (not those of a quote). The SHA-256 of a quote is a parameter.
--
-- backend/app/modules/sources/normalize.py: Translation/Normalize.antt (normalize_source), with
-- Normalize/Tidied.antt on its text. backend/app/modules/translation/segmenter.py: Translation/Segmenter.antt
-- has the units (_units_for_source and what it calls), with one file for each step; Translation/Pack.antt
-- packs them (segment_source). Texts are lists of code points (Translation/Text.antt). The loop of
-- _split_long_sentence runs on fuel, the length of the sentence, of which each round takes at least one
-- character. Unicode normalization and SHA-256 are parameters.
--
-- backend/app/modules/translation/drafts.py: Translation/Content.antt has the contents of drafts and
-- _normalize_content, Translation/Drafts.antt the tables and save_draft, restore_draft and
-- append_draft_delta; Drafts/Saving.antt is about the first two, Drafts/Stream.antt and Drafts/Returns.antt
-- about the third.
-- backend/app/modules/translation/draft_sink.py and the loop over a stream in
-- backend/app/modules/translation/workflow.py (_dispatch_translate, _emit_delta): Translation/Sink.antt,
-- with Sink/Delivery.antt for frames in any order and Sink/Streams.antt for streams. The size of a content
-- as JSON is a parameter.
--
-- backend/app/modules/translation/draft_stream.py: Translation/DraftStream.antt; DraftStream/Feed.antt has
-- the feed that it promises, DraftStream/Refines.antt that it keeps the promise.
-- backend/app/modules/translation/draft_service.py: Translation/DraftService.antt has _build_stream,
-- DraftService/Query.antt _segment_texts with its queries, draft_snapshot and draft_frames;
-- DraftService/Frames.antt has the frames and, of backend/app/api/drafts.py, build_stream_events, and
-- DraftService/Resume.antt is about stream_draft of that file.
--
-- backend/app/modules/translation/context_engine.py: Translation/Context.antt (select_context), with
-- Context/Budget.antt and Context/Order.antt. The SHA-256 of the JSON of a payload is a parameter.
--
-- backend/app/modules/projects/state_machine.py: Projects/States.antt (next_state), with
-- States/Pipeline.antt on sequences of requests.
-- backend/app/modules/projects/invalidation.py: Projects/Invalidation/Schema.antt has the rows,
-- Queries.antt the queries, Graph.antt the methods of InvalidationGraph, which change the objects of the
-- session while its queries read the stored rows. Later.antt says what one state may change of another,
-- Steps.antt and Stages.antt that each method keeps to it, Listed.antt and Withdrawals.antt what the listed
-- identifiers are; Moves.antt, Clears.antt, Revokes.antt and Speech.antt what each method leaves of a chapter;
-- Plans.antt and Reuse.antt are about plan.
--
-- backend/app/modules/storage/cleanup.py: Storage/Cleanup/Schema.antt, Rules.antt (what is protected
-- and what may be deleted), Preview.antt and Execute.antt have CleanupService, Storage/Store.antt the
-- files and ArtifactStore.resolve (backend/app/modules/artifacts/store.py). Account.antt and
-- Quarantined.antt are about the moves of a file, Deletion.antt and Loop.antt about the loop of
-- execute, Targets.antt and Guard.antt about the files that it spares and Balance.antt about the bytes
-- that it counts. What pathlib answers, SHA-256, the names in quarantine and the patterns of glob are
-- parameters, as is the step of each deletion that raises, if one does.
--
-- Shared helpers are in Prelude.antt: tests, tables as lists of rows with their statements, integers.
-- Each part has its runs at concrete inputs in an Examples file; those of the
-- translation are in Examples.antt, Streaming.antt, Resuming.antt and Selecting.antt.
--
-- Identifiers, worker names and keys are only compared, so a number stands for each; the order of text
-- identifiers is the order of these numbers. An instant is a number of microseconds. Clocks and fresh
-- identifiers are arguments. A table is the list of its rows; a constraint of the schema that an
-- operation can break (primary keys, the unique keys of jobs, attempts and drafts) is tested where the
-- row is inserted, and foreign keys to tables outside the model are not. The plan of a job is carried
-- as its JSON text. But for _split_long_sentence every definition is structural recursion, so there is
-- no other fuel.
--
-- Not modelled: the HTTP interface but for the feed of drafts, the providers, the worker's polling loop,
-- migrations and scripts, which are input and output; backups, the writer of artifacts and the parsers of
-- sources, which call the file system and libraries; and the modules for translation memory and review,
-- speech, voices, exports and compliance.
pub mod Prelude
pub mod Jobs
pub mod Execution
pub mod Budgets
pub mod Translation
pub mod Projects
pub mod Storage
