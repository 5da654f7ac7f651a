-- ===== src/Tests/Guards.antt =====
-- The theorems on the run guard, the stores, the locks and the fallback at concrete inputs.
use automitizacion_hbi_capit.Base.{
  if◌then◌else◌, true, none, some, ◌≤◌, ◌<◌, ◌≡◌, ◌≢◌, refl, ◌⊎◌, false, arith,
}
use automitizacion_hbi_capit.Json.Ops.{lookup}
use automitizacion_hbi_capit.Json.{obj}
use automitizacion_hbi_capit.Json.Ops.{lookup}
use automitizacion_hbi_capit.Store.Blob.{BlobObject, Config, persist_result, load_result_for_get}
use automitizacion_hbi_capit.Store.Blob.Summary.{extract_result_summary}
use automitizacion_hbi_capit.Store.Blob.Results.{load_result_for_get-persist_result}
use automitizacion_hbi_capit.Effects.{Reason, skipped, ok, raised}
use automitizacion_hbi_capit.Store.{KeepsFields, job_field}
use automitizacion_hbi_capit.RunGuard.{begin_job_execution, run_job_body, is_running}
use automitizacion_hbi_capit.RunGuard.Begin.{may_begin, begin_job_execution_decides}
use automitizacion_hbi_capit.Base.{◌*◌}
use automitizacion_hbi_capit.Locks.{micros}
use automitizacion_hbi_capit.Store.Memory.Contract.{memory_store, memory-KeepsFields}
use automitizacion_hbi_capit.Store.Memory.Exclusive.{memory_view, memory_wait, memory-KeepsLocks}
use automitizacion_hbi_capit.Store.Blob.{peek_job}
use automitizacion_hbi_capit.Store.Blob.Contract.{blob_store}
use automitizacion_hbi_capit.Store.Blob.{BlobStore, update_job}
use automitizacion_hbi_capit.Store.Blob.Contract.Expiry.{job_wait, blob-Expires}
use automitizacion_hbi_capit.Json.{text, iso, aware, Dict, empty, entry, BlobPath}
use automitizacion_hbi_capit.Json.Ops.{is_unique}
use automitizacion_hbi_capit.Base.{or_else}
use automitizacion_hbi_capit.Store.Memory.{get_or_empty}
use automitizacion_hbi_capit.Store.Memory.Contract.{memory-Merges}
use automitizacion_hbi_capit.Store.Blob.Exclusive.{blob_view, blob_wait, blob-KeepsLocks}
use automitizacion_hbi_capit.RunGuard.{fail_job_if_still_running}
use automitizacion_hbi_capit.RunGuard.Begin.{begin_job_execution_once}
use automitizacion_hbi_capit.RunGuard.Body.{IsSkipped, run_job_body_settles}
use automitizacion_hbi_capit.RunGuard.Reconcile.{fail_job_if_still_running-Done}
use automitizacion_hbi_capit.JobManager.LockContract.{generate, finalize, KeepsLocks}
use automitizacion_hbi_capit.JobManager.Start.{try_start-Gives, start-Gives}
use automitizacion_hbi_capit.JobManager.Purged.{try_start, start, finish, started}
use automitizacion_hbi_capit.JobManager.Exclusion.{later, try_start_excludes, finish-try_start}
use automitizacion_hbi_capit.Fallback.{poll_until_fallback_or_skip}
use automitizacion_hbi_capit.Fallback.Poll.{poll_until_fallback_or_skip-Answers}
use automitizacion_hbi_capit.Tests.{
  completed_job, memory_with, queued_job, running_job, memory_peek, manager, returning, raising,
  no_extra, no_extra-IsExtra, settings, memory_sleep, blob_config,
}

run_job_body_settles_example :
    let r =
      run_job_body memory_store "j" "generate" (returning tt) raising (memory_with running_job) in
    (r.0 ≡ ok tt)
    × ((is_running (memory_peek r.1 "j") ≡ false) ⊎ IsSkipped (raising (memory_with running_job)).0)
run_job_body_settles_example =
    run_job_body_settles memory_store memory_peek memory-KeepsFields "j" (returning tt) (λ s. refl)
      (memory_with running_job) "generate" raising

fail_job_if_still_running-Done_example :
    let r = fail_job_if_still_running memory_store "j" "stuck" (memory_with running_job) in
    (r.0 ≡ ok tt) × (is_running (memory_peek r.1 "j") ≡ false)
fail_job_if_still_running-Done_example =
    fail_job_if_still_running-Done memory_store memory_peek memory-KeepsFields
      (memory_with running_job) "j" "stuck"

begin_job_execution_decides_example :
    let s = memory_with queued_job in
    let r = begin_job_execution memory_store "j" no_extra s in
    (may_begin (some queued_job) ≡ true
      → (r.0 ≡ ok tt)
        × (job_field "status" (memory_peek r.1 "j") ≡ some "running")
        × (job_field "execution_phase" (memory_peek r.1 "j") ≡ some "executing"))
    × (may_begin (some queued_job) ≡ false → (reason : Reason) × (r ≡ (raised (skipped reason), s)))
begin_job_execution_decides_example =
    begin_job_execution_decides memory_store memory_peek memory-KeepsFields (memory_with queued_job)
      "j" no_extra no_extra-IsExtra

begin_job_execution_once_example :
    let s' = (begin_job_execution memory_store "j" no_extra (memory_with queued_job)).1 in
    (reason : Reason) × (begin_job_execution memory_store "j" no_extra s'
      ≡ (raised (skipped reason), s'))
unfolding lookup
begin_job_execution_once_example =
    begin_job_execution_once memory_store memory_peek memory-KeepsFields (memory_with queued_job)
      "j" no_extra no_extra no_extra-IsExtra no_extra-IsExtra refl

-- The generate operation starts where no lock is held.
generate_starts : (try_start memory_store 900 generate manager).0 ≡ ok true
generate_starts =
    (try_start-Gives memory_store memory_view memory_wait memory-KeepsLocks 900 generate _ manager
      refl).0

start-Gives_example :
    let r = start memory_store true 900 generate manager in
    (r.0 ≡ ok true) × (memory_view r.1.store ≡ started 900 generate (memory_view manager.store))
start-Gives_example =
    start-Gives memory_store memory_view memory_wait memory-KeepsLocks 900 true generate
      (memory_view manager.store) manager refl

try_start_excludes_example :
    let next =
      (start memory_store true 900 finalize (
        later memory_store memory_view memory_wait memory-KeepsLocks 900 5
          (start memory_store true 900 generate manager).1)).0 in
    (true ≡ true → (5 < 900 * micros → next ≡ ok false) × (900 * micros ≤ 5 → next ≡ ok true))
    × (true ≡ false → next ≡ ok true)
try_start_excludes_example =
    try_start_excludes memory_store memory_view memory_wait memory-KeepsLocks 900 true generate
      finalize 5 manager refl generate_starts

finish-try_start_example :
    let done =
      (finish memory_store true 900 generate (start memory_store true 900 generate manager).1).1 in
    (start memory_store true 900 finalize
      (later memory_store memory_view memory_wait memory-KeepsLocks 900 0 done)).0
    ≡ ok true
finish-try_start_example =
    finish-try_start memory_store memory_view memory_wait memory-KeepsLocks 900 true generate
      finalize 0 manager generate_starts

-- A job that expires at 900, in a store whose clock reads 100.
abbrev expiring_job : Dict
expiring_job = entry "status" (text "running") (entry "expires_at" (iso (aware 900)) empty)

abbrev expiring_store : BlobStore
expiring_store = record {
  objects =
      λ path. elim path [ BlobPath.meta id ↦ some (BlobObject.json (obj expiring_job)) | _ ↦ none ];
  now = 100;
  lock_ttl = 900;
}

blob-Expires_example :
    KeepsFields (blob_store blob_config) (peek_job blob_config)
    × (job_field "status" (peek_job blob_config (job_wait 800 expiring_store) "j") ≡ some "expired")
    × (job_field "status" (
          peek_job blob_config
            (update_job blob_config "j" completed_job (job_wait 800 expiring_store)).1
            "j")
        ≡ some "expired")
unfolding lookup is_unique
blob-Expires_example =
    blob-Expires blob_config expiring_store "j" expiring_job completed_job "completed" 900 800
      (omega arith) refl refl refl refl refl

memory-Merges_example :
    let s = memory_with running_job in
    let s' = (memory_store.update_job "j" completed_job s).1 in
    KeepsFields memory_store (λ q i. q.jobs i)
    × (lookup "started_at" (get_or_empty (s'.jobs "j"))
        ≡ or_else (lookup "started_at" completed_job) (lookup "started_at" running_job))
    × (s'.jobs "k" ≡ s.jobs "k")
unfolding lookup is_unique
memory-Merges_example =
    memory-Merges (memory_with running_job) "j" "k" "started_at" completed_job refl

blob-KeepsLocks_example : KeepsLocks (blob_store blob_config) blob_view blob_wait
blob-KeepsLocks_example = blob-KeepsLocks blob_config

poll_until_fallback_or_skip-Answers_example :
    (poll_until_fallback_or_skip memory_store settings memory_sleep "stale" 19 "j"
      (memory_with queued_job)).0
    ≢ ok none
poll_until_fallback_or_skip-Answers_example =
    poll_until_fallback_or_skip-Answers memory_store memory_peek memory-KeepsFields settings
      memory_sleep "stale" (λ d s. omega arith) 18 (memory_with queued_job) "j" (omega arith)
      (omega arith)

-- A result that is longer than an answer may be: only its summary is told.
abbrev small_answers : Config
small_answers = record { ttl_days = 7; inline_max = 2; http_get_max = 4; size = λ o. 5 }

load_result_for_get-persist_result_example :
    let (objects', meta') =
      persist_result small_answers "j" queued_job (obj completed_job) (λ path. none) in
    let job = load_result_for_get small_answers objects' meta' in
    (lookup "result" job ≡ (if true then none else some (obj completed_job)))
    × (true ≡ true
        → lookup "result_summary" job ≡ some (obj (extract_result_summary completed_job)))
unfolding lookup
load_result_for_get-persist_result_example =
    load_result_for_get-persist_result small_answers "j" completed_job queued_job (λ path. none)
      refl
