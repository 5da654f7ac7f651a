-- ===== src/Fallback/Claim.antt =====
-- `run_job_if_still_queued` of app/application/jobs/vercel_workflow_fallback.py: its claim, and the
-- write for a job whose runner is stuck.
use automitizacion_hbi_capit.Base.{ℕ, String, ◌≡◌, ◌≢◌, refl, Option, some}
use automitizacion_hbi_capit.Json.{Dict}
use automitizacion_hbi_capit.Json.Ops.{lookup, is_unique}
use automitizacion_hbi_capit.Effects.{ok, Act}
use automitizacion_hbi_capit.Store.{JobStore, KeepsFields, job_field}
use automitizacion_hbi_capit.Fallback.{Settings, mark_stale_running_failed}

module _ {S : Type 0} (st : JobStore S) (peek : S → String → Option Dict)
    (laws : KeepsFields st peek) (cfg : Settings) (sleep : ℕ → Act S (Unit {0}))
    (message : String) where
  open laws use {get_job-peek, update_job-ok, field-update_job}

  -- The write for a job whose runner is stuck.
  pub mark_stale_running_failed-status :
      (s : S) (id : String)
      → job_field "status" (peek s id) ≢ some "expired"
      → let r = mark_stale_running_failed st cfg sleep message id s in
        (r.0 ≡ ok tt) × (job_field "status" (peek r.1 id) ≡ some "failed")
  unfolding mark_stale_running_failed lookup is_unique
  mark_stale_running_failed-status s id fresh =
      (update_job-ok s id _, field-update_job s id "status" _ "failed" refl fresh refl refl refl)
