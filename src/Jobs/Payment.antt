-- ===== src/Jobs/Payment.antt =====
-- app/application/jobs/payment_validation_generate_job.py and payment_validation_finalize_job.py, in
-- the job manager's state. The use cases, with the time limit of `run_with_timeout`, and what
-- `date.fromisoformat` makes of the process date are parameters.
use automitizacion_hbi_capit.Base.{ℕ, ◌-◌, String, Bool}
use automitizacion_hbi_capit.Json.{Value, num, text, obj, Dict, empty, entry}
use automitizacion_hbi_capit.Json.Ops.{update}
use automitizacion_hbi_capit.Effects.{Result, Act, reraise, ◌>>=◌, ◌>>◌, gets}
use automitizacion_hbi_capit.Store.{JobStore}
use automitizacion_hbi_capit.Store.Memory.{isoformat}
use automitizacion_hbi_capit.RunGuard.{begin_job_execution, run_job_body}
use automitizacion_hbi_capit.JobManager.{JobManager, on_store, finish_generate, finish_finalize}

-- The store behind the job manager.
abbrev pub manager_store : {S : Type 0} → JobStore S → JobStore (JobManager S)
manager_store st = record {
  now = λ jm. st.now jm.store;
  create_job = λ id d. on_store (st.create_job id d);
  get_job = λ id. on_store (st.get_job id);
  update_job = λ id u. on_store (st.update_job id u);
  complete_job = λ id d. on_store (st.complete_job id d);
  fail_job = λ id d. on_store (st.fail_job id d);
  append_event = λ id d. on_store (st.append_event id d);
  acquire_lock = λ k h ttl. on_store (st.acquire_lock k h ttl);
  release_lock = λ k h. on_store (st.release_lock k h);
  is_lock_held = λ k. on_store (st.is_lock_held k);
  get_lock = λ k. on_store (st.get_lock k);
  cleanup_expired_lock = λ k. on_store (st.cleanup_expired_lock k);
}

-- `{"status": "completed", "finished_at", "updated_at", "result"}`
abbrev pub ended_updates : Value → Value → Dict
ended_updates now result =
    entry "status" (text "completed")
      (entry "finished_at" now (entry "updated_at" now (entry "result" result empty)))

module _ {S : Type 0} (st : JobStore S) (locks_enabled : Bool) (ttl : ℕ) (id : String)
    (process_date : Result Value) where
  -- The `_run` of both jobs: `added` are the keys that are put beside the elapsed time.
  unfoldable pub run_use_case : Dict → Act (JobManager S) Dict → Act (JobManager S) (Unit {0})
  run_use_case added use_case = do
    begin_job_execution (manager_store st) id empty
    started ← gets (manager_store st).now
    result ← use_case
    ended ← gets (manager_store st).now
    (manager_store st).update_job id (
        ended_updates (isoformat ended)
          (obj (update (update result added) (entry "elapsed_ms" (num (ended - started)) empty))))

  -- A process date that cannot be read raises before the guarded body.
  unfoldable pub execute_payment_validation_generate_job :
      Act (JobManager S) Dict → Act (JobManager S) (Unit {0})
  unfolding run_use_case
  execute_payment_validation_generate_job generate_payment_validation =
      reraise process_date >>= λ day.
      run_job_body (manager_store st) id "generate_exited_without_terminal_status"
        (finish_generate st locks_enabled ttl)
        (run_use_case (entry "process_date" day empty) generate_payment_validation)

  unfoldable pub execute_payment_validation_finalize_job :
      Act (JobManager S) Dict → Act (JobManager S) (Unit {0})
  unfolding run_use_case
  execute_payment_validation_finalize_job finalize_payment_validation =
      reraise process_date >>= λ day.
      run_job_body (manager_store st) id "finalize_exited_without_terminal_status"
        (finish_finalize st locks_enabled ttl) (run_use_case empty finalize_payment_validation)
