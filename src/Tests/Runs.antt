-- ===== src/Tests/Runs.antt =====
-- The definitions run at single inputs.
use automitizacion_hbi_capit.Base.{◌≡◌, refl, true, false}
use automitizacion_hbi_capit.Json.Ops.{lookup}
use automitizacion_hbi_capit.Effects.{ok}
use automitizacion_hbi_capit.Base.Signed.{ℤ}
use automitizacion_hbi_capit.Locks.{parse_expires_at, should_relinquish_lock, whole_seconds}
use automitizacion_hbi_capit.Fallback.{Action, should_run_fallback_for_running}
use automitizacion_hbi_capit.Jobs.Amortization.{error_code, guardrails, signals}
use automitizacion_hbi_capit.Jobs.Merge.{tally, primary_artifact_action}
use automitizacion_hbi_capit.Jobs.Reports.{email_sent, email_pdf_action}
use automitizacion_hbi_capit.Tests.{
  settings, running_job, completed_job, pdf_outputs, skipped_result, notified, lock_document,
}

code_is_cut : error_code " pdf_missing | no pdf" ≡ "pdf_missing"
unfolding error_code
code_is_cut = refl

code_of_whole_message : error_code "bad report\n" ≡ "bad report"
unfolding error_code
code_of_whole_message = refl

one_created : (tally pdf_outputs).files_created ≡ 1
unfolding tally
one_created = refl

one_reused : (tally pdf_outputs).files_reused ≡ 1
unfolding tally
one_reused = refl

action_is_created : primary_artifact_action (tally pdf_outputs) ≡ "created"
unfolding tally primary_artifact_action
action_is_created = refl

all_were_skipped : guardrails skipped_result ≡ ok (signals 0 0 3 3 0 0)
unfolding guardrails lookup
all_were_skipped = refl

mail_is_sent : email_sent notified ≡ true
unfolding email_sent
mail_is_sent = refl

mail_copy_is_created : email_pdf_action notified ≡ "created"
unfolding email_pdf_action
mail_copy_is_created = refl

lock_runs : should_relinquish_lock 899_999_999 900 lock_document ≡ false
unfolding should_relinquish_lock lookup
lock_runs = refl

lock_has_run_out : should_relinquish_lock 900_000_000 900 lock_document ≡ true
unfolding should_relinquish_lock lookup
lock_has_run_out = refl

lock_was_granted_too_long : should_relinquish_lock 0 800 lock_document ≡ true
unfolding should_relinquish_lock lookup
lock_was_granted_too_long = refl

seconds_towards_zero : whole_seconds 2_500_000 1_000_000 ≡ ℤ.negsuc 0
unfolding whole_seconds
seconds_towards_zero = refl

active_runner_is_left : should_run_fallback_for_running settings 5_000_000 running_job ≡ Action.skip
unfolding should_run_fallback_for_running lookup parse_expires_at
active_runner_is_left = refl

stuck_runner_is_failed :
    should_run_fallback_for_running settings 901_000_000 running_job ≡ Action.fail
unfolding should_run_fallback_for_running lookup parse_expires_at
stuck_runner_is_failed = refl

ended_job_is_left : should_run_fallback_for_running settings 5_000_000 completed_job ≡ Action.skip
unfolding should_run_fallback_for_running lookup parse_expires_at
ended_job_is_left = refl
