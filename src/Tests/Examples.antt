-- ===== src/Tests/Examples.antt =====
-- The theorems on the expiry of locks, the jobs and the cleanup at concrete inputs.
use automitizacion_hbi_capit.Base.{◌+◌, ◌≤◌, ◌<◌, ◌≡◌, ◌≢◌, refl, ◌⊎◌, true, false, some}
use automitizacion_hbi_capit.Json.{Dict}
use automitizacion_hbi_capit.Json.Ops.{lookup, is_unique}
use automitizacion_hbi_capit.Effects.{Result, Act, ok}
use automitizacion_hbi_capit.Store.{job_field}
use automitizacion_hbi_capit.RunGuard.{begin_job_execution}
use automitizacion_hbi_capit.RunGuard.Begin.{may_begin}
use automitizacion_hbi_capit.Base.{◌+◌, ◌*◌}
use automitizacion_hbi_capit.Base.{◌↔◌}
use automitizacion_hbi_capit.Locks.{micros, slack, should_relinquish_lock}
use automitizacion_hbi_capit.Locks.Expiry.{should_relinquish_lock_iff}
use automitizacion_hbi_capit.Store.Memory.{MemoryJobStore}
use automitizacion_hbi_capit.Store.Memory.Contract.{memory_store, memory-KeepsFields}
use automitizacion_hbi_capit.Store.Memory.Exclusive.{memory_view, memory_wait, memory-KeepsLocks}
use automitizacion_hbi_capit.JobManager.LockContract.{Which, generate, finalize}
use automitizacion_hbi_capit.JobManager.Purged.{purged}
use automitizacion_hbi_capit.LockDiagnostics.{cleanup_expired_payment_validation_locks}
use automitizacion_hbi_capit.LockDiagnostics.Cleanup.{
  ReadsLocks, report_of, cleanup_expired_payment_validation_locks-Leaves,
}
use automitizacion_hbi_capit.Store.Memory.{get_lock}
use automitizacion_hbi_capit.JobManager.LockContract.{key_of, lock_of}
use automitizacion_hbi_capit.Jobs.{run_guarded}
use automitizacion_hbi_capit.Jobs.Guarded.{outcome, run_guarded_closes}
use automitizacion_hbi_capit.Jobs.Amortization.{amortization_failed, dry_run_finished}
use automitizacion_hbi_capit.Tests.{
  memory_with, queued_job, memory_peek, manager, returning, no_extra, no_extra-IsExtra,
  skipped_result, lock_document,
}

should_relinquish_lock_iff_example :
    (should_relinquish_lock 100 900 lock_document ≡ true)
    ↔ ((0 + 900 * micros ≤ 100) ⊎ (900 + slack 900 < 900))
unfolding lookup
should_relinquish_lock_iff_example =
    should_relinquish_lock_iff 100 0 900 900 lock_document refl refl

-- The world in which the use case of a job starts, and how the job ends.
abbrev begun : Dict → MemoryJobStore
begun extra = (begin_job_execution memory_store "j" extra (memory_with queued_job)).1

abbrev Closed :
    {R : Type 0} → Act MemoryJobStore R → Dict → Result (Unit {0}) × MemoryJobStore → Type 0
Closed use_case extra r =
    (may_begin (some queued_job) ≡ true
      → job_field "status" (memory_peek (use_case (begun extra)).1 "j") ≢ some "expired"
      → (r.0 ≡ ok tt)
        × (job_field "status" (memory_peek r.1 "j") ≡ some (outcome (use_case (begun extra)).0)))
    × (may_begin (some queued_job) ≡ false → r ≡ (ok tt, memory_with queued_job))

run_guarded_closes_example : Closed (returning skipped_result) no_extra (
    run_guarded memory_store "j" no_extra
      (returning skipped_result)
      dry_run_finished
      amortization_failed
      (memory_with queued_job))
unfolding lookup is_unique
run_guarded_closes_example =
    run_guarded_closes memory_store memory_peek memory-KeepsFields "j" dry_run_finished
      amortization_failed (λ x elapsed now. (refl, refl, refl)) (λ e now. (refl, refl, refl))
      (memory_with queued_job) no_extra (returning skipped_result) no_extra-IsExtra

-- Reading a lock in memory, and its clock.
memory-ReadsLocks : ReadsLocks memory_store memory_view
unfolding get_lock
memory-ReadsLocks = record { get_lock-view = reads_lock; now-view = λ s. refl }
  where
    reads_lock :
        (w : Which) (s : MemoryJobStore)
        → memory_store.get_lock (key_of w) s ≡ (ok (lock_of w (memory_view s)), s)
    reads_lock generate s = refl
    reads_lock finalize s = refl

cleanup_expired_payment_validation_locks-Leaves_example :
    let r = cleanup_expired_payment_validation_locks memory_store true 900 manager in
    (r.0 ≡ ok (report_of true (memory_view manager.store)))
    × (memory_view r.1.store ≡ purged (memory_view manager.store))
cleanup_expired_payment_validation_locks-Leaves_example =
    cleanup_expired_payment_validation_locks-Leaves memory_store memory_view memory_wait
      memory-KeepsLocks memory-ReadsLocks true 900 manager refl
