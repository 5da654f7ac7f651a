-- ===== src/RunGuard.antt =====
-- app/application/jobs/job_run_guard.py: a job is run by one runner and does not stay in `running`.
-- The job manager's `set_job` and `get_job` are the store's `update_job` and `get_job`; the clock is
-- read once in each step. The time limit of `run_with_timeout` is part of the action that runs.
pub mod Begin
pub mod Reconcile
pub mod Body
use Prim.Native.String.{◌++◌ as ◌+++◌}
use automitizacion_hbi_capit.Base.{
  String, Bool, true, false, not, ◌&&◌, ◌||◌, Option, none, some, List, [], ◌∷◌, ◌==◌, member,
  if◌then◌else◌,
}
use automitizacion_hbi_capit.Json.{
  Value, null, text, obj, Dict, empty, entry, holds, text_of, truthy,
}
use automitizacion_hbi_capit.Json.Ops.{lookup, insert, update}
use automitizacion_hbi_capit.Effects.{
  Reason, already, already_running, unexpected, Exn, skipped, error, Result, ok, raised, Act, pure,
  raise, ◌>>=◌, ◌>>◌, attempt, reraise, gets,
}
use automitizacion_hbi_capit.Store.{JobStore}
use automitizacion_hbi_capit.Store.Memory.{isoformat}

abbrev pub terminal_statuses : List String
terminal_statuses = "completed" ∷ "failed" ∷ []

abbrev pub status_of : Dict → String
status_of job = text_of (lookup "status" job)

unfoldable pub job_has_success_payload : Dict → Bool
job_has_success_payload job =
    holds (lookup "result" job)
    || holds (lookup "result_summary" job)
    || holds (lookup "result_ref" job)

-- The updates of `begin_job_execution`, with `extra_updates` (empty for None).
abbrev pub running_updates : Value → Dict → Dict
running_updates now extra =
    update
      (entry "status" (text "running") (
        entry "started_at" now
          (entry "updated_at" now (entry "execution_phase" (text "executing") empty))))
      extra

-- `{"status": ..., "finished_at": ..., "updated_at": ..., "error": ...}`
abbrev pub closing_updates : String → Value → Value → Value → Dict
closing_updates status finished now err =
    entry "status" (text status)
      (entry "finished_at" finished (entry "updated_at" now (entry "error" err empty)))

-- `job.get("finished_at") or _utc_now_iso()`
abbrev pub or_value : Option Value → Value → Value
or_value none t = t
or_value (some v) t = if truthy v then v else t

abbrev pub exn_type : Exn → String
exn_type (skipped r) = "JobExecutionSkipped"
exn_type (error name msg) = name

abbrev pub reason_text : Reason → String
reason_text (already status) = "job already " +++ status
reason_text already_running = "job already running"
reason_text (unexpected status) = "unexpected status " +++ status

abbrev pub exn_message : Exn → String
exn_message (skipped r) = reason_text r
exn_message (error name msg) = msg

abbrev pub error_value : String → String → Value
error_value name msg = obj (entry "type" (text name) (entry "message" (text msg) empty))

abbrev pub is_running : Option Dict → Bool
is_running none = false
is_running (some job) = status_of job == "running"

abbrev pub aborted_error : String → Value
aborted_error reason = obj (
    entry "type" (text "JobAborted")
      (entry "message" (text reason) (entry "error_code" (text "job_stuck_running") empty)))

-- `job and job.get("status") in _TERMINAL_STATUSES`
abbrev pub is_terminal : Option Dict → Bool
is_terminal none = false
is_terminal (some job) = truthy (obj job) && member (status_of job) terminal_statuses

-- `terminal` where the handlers have ended or raised
abbrev pub flag_of : Result Bool → Bool
flag_of (ok terminal) = terminal
flag_of (raised e) = false

module _ {S : Type 0} (st : JobStore S) where
  -- What `begin_job_execution` does with the job that it has read.
  unfoldable pub begin_from : String → Dict → Option Dict → Act S (Unit {0})
  begin_from id updates none = st.update_job id updates
  begin_from id updates (some job) =
      if member (status_of job) terminal_statuses
      then raise (skipped (already (status_of job)))
      else if status_of job == "running"
      then (if text_of (lookup "execution_phase" job) == "workflow_dispatched"
          then st.update_job id (insert "execution_phase" (text "executing") updates)
          else raise (skipped already_running))
      else if not (status_of job == "queued")
      then raise (skipped (unexpected (status_of job)))
      else st.update_job id updates

  unfoldable pub begin_job_execution : String → Dict → Act S (Unit {0})
  unfolding begin_from
  begin_job_execution id extra = do
    now ← gets st.now
    job ← st.get_job id
    begin_from id (running_updates (isoformat now) extra) job

  unfoldable pub reconcile_from : String → Value → Option Dict → Act S Bool
  unfolding job_has_success_payload
  reconcile_from id now none = pure false
  reconcile_from id now (some job) =
      if not (truthy (obj job))
      then pure false
      else if member (status_of job) terminal_statuses
      then pure true
      else if status_of job == "running" && job_has_success_payload job
      then (st.update_job id
            (closing_updates "completed" (or_value (lookup "finished_at" job) now) now null)
          >> pure true)
      else pure false

  unfoldable pub reconcile_job_terminal : String → Act S Bool
  unfolding reconcile_from
  reconcile_job_terminal id = do
    now ← gets st.now
    job ← st.get_job id
    reconcile_from id (isoformat now) job

  unfoldable pub fail_from : String → String → Value → Option Dict → Act S (Unit {0})
  fail_from id reason now job =
      if is_running job
      then st.update_job id (closing_updates "failed" now now (aborted_error reason))
      else pure tt

  unfoldable pub fail_job_if_still_running : String → String → Act S (Unit {0})
  unfolding reconcile_job_terminal fail_from
  fail_job_if_still_running id reason = do
    done ← reconcile_job_terminal id
    now ← gets st.now
    if done then pure tt else (st.get_job id >>= fail_from id reason (isoformat now))

  -- The `try` block of `run_job_body`: what `terminal` is at its end.
  unfoldable pub run_and_check : String → Act S (Unit {0}) → Act S Bool
  unfolding reconcile_job_terminal
  run_and_check id execute = do
    execute
    done ← reconcile_job_terminal id
    if done then pure true else (st.get_job id >>= λ job. pure (is_terminal job))

  -- The first statements of the handler of any other exception: the failure is persisted, if that works.
  unfoldable pub persist_failure : String → Exn → Act S Bool
  persist_failure id e = do
    now ← gets st.now
    r ← attempt (
        st.update_job id (
          closing_updates "failed" (isoformat now) (isoformat now)
            (error_value (exn_type e) (exn_message e))))
    pure (elim r [ ok _ ↦ true | raised _ ↦ false ])

  -- The two `except` clauses of `run_job_body`.
  unfoldable pub handle : String → Result Bool → Act S Bool
  unfolding reconcile_job_terminal persist_failure
  handle id (ok terminal) = pure terminal
  handle id (raised (skipped reason)) = do
    done ← reconcile_job_terminal id
    if done then pure true else (st.get_job id >>= λ job. pure true)
  handle id (raised (error name msg)) = do
    done ← reconcile_job_terminal id
    if done then pure true else persist_failure id (error name msg)

  -- The `finally` block of `run_job_body`.
  unfoldable pub settle : String → String → Act S (Unit {0}) → Bool → Act S (Unit {0})
  unfolding reconcile_job_terminal fail_job_if_still_running
  settle id reason finish_lock terminal = do
    _ ← attempt finish_lock
    terminal' ← (if terminal then pure true else reconcile_job_terminal id)
    if terminal' then pure tt else fail_job_if_still_running id reason

  unfoldable pub run_job_body :
      String → String → Act S (Unit {0}) → Act S (Unit {0}) → Act S (Unit {0})
  unfolding run_and_check handle settle
  run_job_body id reason finish_lock execute = do
    r ← attempt (run_and_check id execute)
    h ← attempt (handle id r)
    settle id reason finish_lock (flag_of h)
    reraise (elim h [ ok _ ↦ ok tt | raised e ↦ raised e ])
