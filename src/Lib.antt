-- ===== src/Lib.antt =====
-- The payment automation: an API process and a workflow worker run long jobs over SharePoint files,
-- and share their state in a job store. Modelled are the job machinery, and of the use cases that the
-- jobs run, the review of the payments (generate and finalize), the control of the merge of PDFs and the
-- apply of the amortization.
--
-- The parts, and how they meet. An HTTP route creates a `queued` job in the store, takes the lock of
-- its operation if it is generate or finalize, and hands the job to a workflow or runs it in the
-- background. The runner begins the job, runs its use case and persists the result or the error; a
-- guard closes jobs that end in no terminal status. Where the workflow's worker does not come, the
-- API's fallback waits, looks and takes the job over.
--
-- - Base, Json, Effects: texts, numbers, dictionaries of JSON values, and calls as functions from a
--   world to a result or an exception and the world after it.
-- - Store: app/domain/ports/job_store.py as a record of operations, with the contract on the fields
--   that the runners of a job agree by. Store.Memory is app/adapters/secondary/memory_job_store.py
--   and Store.Blob app/adapters/secondary/vercel_blob_job_store.py; each `def` of the two classes is
--   a function of the same name.
-- - Locks: app/application/lock_utils.py, the expiry of a lock.
-- - JobManager: app/application/job_manager.py, `try_start_*`, `finish_*` and the two flags;
--   JobManager.LockContract is what it relies on in a store.
-- - RunGuard: app/application/jobs/job_run_guard.py, `begin_job_execution`,
--   `reconcile_job_terminal`, `fail_job_if_still_running` and `run_job_body`.
-- - Fallback: app/application/jobs/vercel_workflow_fallback.py, `_should_run_fallback_for_running`,
--   `_poll_until_fallback_or_skip` and `run_job_if_still_queued`.
-- - Jobs: the `execute_*_job` of app/application/jobs, with what they persist. Jobs is the shape that
--   six of them share, Jobs.Amortization, Jobs.Merge, Jobs.Reports and Jobs.Payment the jobs.
-- - LockDiagnostics: app/application/payment_validation_locks.py, the views of the locks, their
--   cleanup and their release; the texts of the conflict answer are left out.
-- - Review: app/application/services/review_schema.py, the states of a payment line and the migration
--   of old workbooks. Distribution: of app/application/use_cases/payment_validation_generate.py, the
--   lines that generate writes; each `_build_*` is a function of the same name.
-- - Sheets, Finalize: app/application/use_cases/payment_validation_finalize.py. Sheets reads tables and
--   amounts, Finalize and Finalize.Lines are the audit of the workbook in its order of checks, and
--   Finalize.Run is the rest of `finalize_payment_validation`, with its calls of Graph in their order.
-- - Graph: app/domain/ports/graph.py, the download and the upload.
-- - MergeControl: row 2 of the control workbook, from
--   app/application/use_cases/merge_control_workbook_merge.py and merge_control_workbook_notify.py;
--   MergeControl.Run is `merge_composite_validado_pdfs` as far as the row goes, MergeControl.Notify is
--   `update_merge_control_workbook_after_notify`, MergeControl.States the life of the row where
--   the runs do not overlap, and MergeControl.Overlap the rows that it may hold where they do.
-- - Apply: app/application/services/amortization_apply_safety.py and of
--   app/application/use_cases/amortization_fill_apply.py the preflight (Apply.Preflight), the summary,
--   `_apply_one_table` (Apply.Table its loop, Apply.Upload the rest) and the run over the tables
--   (Apply.Run).
-- - Tests: concrete stores and the theorems at concrete inputs.
--
-- How the code is read. A timestamp is the instant that `datetime.fromisoformat` gives, in
-- microseconds, and tells apart the empty and the malformed text; a path under Blob is its kind and
-- its key. The clock is read once in each step, and `elapsed_ms` is kept in microseconds, unrounded.
-- A call of a store is one step, and the theorems on several calls say in which order they come:
-- calls of other tasks that come between those of one attempt to start, or of one
-- `begin_job_execution`, are not modelled. The code has no lock for the merges and registrations of
-- the control workbook; MergeControl.Overlap takes every order of their reads and writes. A field that
-- is compared with a word is a text, or else it equals none of the words. An exception is the name of
-- its class and its message; a cancelled task and a killed process are not modelled. Stores do not fail
-- where a theorem takes their contract.
-- The use cases, and what they do in Graph, SharePoint, Excel and PDF, are parameters, and so are the
-- settings of the environment, the sleep and the length of a serialized document.
--
-- The polling loop is on fuel: one look for every interval that the waiting time holds and one more
-- is enough, since every turn sleeps an interval; the digits of a number are on the number itself,
-- which has no more of them. All else is structural recursion.
--
-- Amounts of money are whole cents, and the code's tolerance of 0.01 is one cent; a third decimal of a
-- text is dropped. A cell of a sheet is a value: a text, a truth value, a number, an amount or nothing.
-- Letters and blanks are those of ASCII and Latin-1. The library of the workbooks is a pair of
-- functions between a file's bytes and its sheets.
--
-- Not modelled: the routers, the Graph client and the workflow SDK, which are I/O; the texts of the
-- status routes (app/application/job_status_enrichment.py); of the use cases under
-- app/application/use_cases, the search in SharePoint, the joining of PDFs, the mail and the drawing
-- of sheets, which are parameters where a modelled part calls them; the dry run of the amortization,
-- the cells of its tables and the services that read PDFs; the settings' parsing from the environment;
-- logging.
pub mod Base
pub mod Json
pub mod Locks
pub mod Effects
pub mod Store
pub mod RunGuard
pub mod JobManager
pub mod Fallback
pub mod Jobs
pub mod LockDiagnostics
pub mod Review
pub mod Distribution
pub mod Graph
pub mod MergeControl
pub mod Apply
pub mod Sheets
pub mod Finalize
pub mod Tests
