-- ===== src/Jobs.antt =====
-- app/application/jobs/*_job.py: the shape that the jobs share. A job begins, unless another runner
-- has it; then it runs its use case and persists the result, or persists the exception. The use
-- cases are parameters. `elapsed_ms` is kept in microseconds, unrounded. An exception is told by the
-- name of its class.
pub mod Guarded
pub mod Amortization
pub mod Merge
pub mod Reports
pub mod Payment
use automitizacion_hbi_capit.Base.{
  ℕ, zero, suc, ◌+◌, ◌-◌, ◌≤◌, ◌<◌, String, ◌≡◌, ◌≢◌, refl, sym, ap, ◌∙◌, ◌⊎◌, inl, inr, Bool, true,
  false, not, ◌&&◌, ◌||◌, Option, none, some, List, [], ◌∷◌, map, length, if◌then◌else◌, ◌==◌,
  eq_iff, arith, member, Bool-cases, ltb, leb, eqb,
}
use automitizacion_hbi_capit.Json.{
  Value, null, bool, num, text, iso, arr, obj, Items, nil, cons, Dict, empty, entry, holds, truthy,
  text_of, is_text,
}
use automitizacion_hbi_capit.Json.Ops.{lookup, is_unique, update, insert}
use automitizacion_hbi_capit.Effects.{
  Reason, Exn, skipped, error, Result, ok, raised, Act, pure, raise, ◌>>=◌, ◌>>◌, attempt, reraise,
  gets, bind_rule, bind_from,
}
use automitizacion_hbi_capit.Store.{JobStore, KeepsFields, job_field}
use automitizacion_hbi_capit.Store.Memory.{isoformat}
use automitizacion_hbi_capit.RunGuard.{
  terminal_statuses, status_of, begin_job_execution, exn_message, exn_type, error_value,
  run_job_body, is_running, running_updates,
}
use automitizacion_hbi_capit.RunGuard.Begin.{may_begin, IsExtra, begin_job_execution_decides}

-- What may follow `begin_job_execution`: `except JobExecutionSkipped: return`.
abbrev pub unless_skipped : {S : Type 0} → Result (Unit {0}) → Act S (Unit {0}) → Act S (Unit {0})
unless_skipped (ok _) body = body
unless_skipped (raised (skipped r)) body = pure tt
unless_skipped (raised (error name msg)) body = raise (error name msg)

-- `{"status": "completed", "finished_at", "updated_at", "result", "error": None}`
abbrev pub completed_updates : Value → Value → Dict
completed_updates now result = entry "status" (text "completed") (
    entry "finished_at" now
      (entry "updated_at" now (entry "result" result (entry "error" null empty))))

-- The same with `elapsed_ms` before the result.
abbrev pub completed_updates_with : Value → Value → Value → Dict
completed_updates_with now elapsed result = entry "status" (text "completed") (
    entry "finished_at" now (
      entry "updated_at" now
        (entry "elapsed_ms" elapsed (entry "result" result (entry "error" null empty)))))

-- `{"status": "failed", "finished_at", "updated_at", "result": None, "error"}`
abbrev pub failed_updates : Value → Value → Dict
failed_updates now err = entry "status" (text "failed") (
    entry "finished_at" now
      (entry "updated_at" now (entry "result" null (entry "error" err empty))))

-- `"error": str(exc)`
abbrev pub failed_by_text : Exn → Value → Dict
failed_by_text e now = failed_updates now (text (exn_message e))

-- `{"status": "ok", "message": "Ejecutado con éxito", ...}`
abbrev pub ok_result : Dict → Value
ok_result d = obj (entry "status" (text "ok") (entry "message" (text "Ejecutado con éxito") d))

module _ {S : Type 0} (st : JobStore S) where
  -- The `except` clauses of the `try` block; `failed` gives the updates from the exception.
  unfoldable pub persist_exception :
      String → (Exn → Value → Dict) → Result (Unit {0}) → Act S (Unit {0})
  persist_exception id failed (ok _) = pure tt
  persist_exception id failed (raised e) =
      gets st.now >>= λ now. st.update_job id (failed e (isoformat now))

  module _ {R : Type 0} where
    -- The `try` block: `finished` gives the updates from the result, the elapsed time and the clock.
    unfoldable pub try_use_case : String → Act S R → (R → Value → Value → Dict) → Act S (Unit {0})
    try_use_case id use_case finished = do
      started ← gets st.now
      result ← use_case
      ended ← gets st.now
      st.update_job id (finished result (num (ended - started)) (isoformat ended))

    unfoldable pub run_guarded :
        String
        → Dict
        → Act S R
        → (R → Value → Value → Dict)
        → (Exn → Value → Dict)
        → Act S (Unit {0})
    unfolding try_use_case persist_exception
    run_guarded id extra use_case finished failed = do
      began ← attempt (begin_job_execution st id extra)
      unless_skipped began
          (attempt (try_use_case id use_case finished) >>= persist_exception id failed)
