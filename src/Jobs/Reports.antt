-- ===== src/Jobs/Reports.antt =====
-- app/application/jobs/ensure_asientos_contables_job.py, validate_payment_report_job.py and
-- notify_validar_extractos_job.py, with the result types of their use cases under
-- app/application/use_cases. The use cases are parameters.
use automitizacion_hbi_capit.Base.{
  ℕ, suc, String, Bool, ◌&&◌, Option, none, some, if◌then◌else◌, ltb, leb,
}
use automitizacion_hbi_capit.Json.{
  Value, null, bool, num, text, arr, Items, nil, cons, Dict, empty, entry, truthy,
}
use automitizacion_hbi_capit.Effects.{Act}
use automitizacion_hbi_capit.Store.{JobStore}
use automitizacion_hbi_capit.Jobs.{
  completed_updates, completed_updates_with, failed_by_text, ok_result, run_guarded,
}

pub record EnsureAsientosContablesResult : Type 0 where
  pub clients_base_path : String
  pub clients_scanned : ℕ
  pub credit_folders_scanned : ℕ
  pub folders_created : ℕ
  pub folders_already_present : ℕ
  pub subfolder_names : Items
  pub errors : Items

pub record ValidationSummary : Type 0 where
  pub processed_rows : ℕ
  pub ok_count : ℕ
  pub no_count : ℕ
  pub error_count : ℕ
  pub row_errors : Items

pub record ValidarExtractosNotifyResult : Type 0 where
  pub report_date : String
  pub historico_excel_path : String
  pub historical_file_path : String
  pub historical_file_source : String
  pub rows_included : ℕ
  pub subject : String
  pub attachments_count : ℕ
  pub graph_sendmail_http_status : ℕ
  pub mail_sender : String
  pub mail_to : String
  pub email_pdf_path : Option String
  pub email_pdf_error : Option String
  pub merge_control_updated : Bool
  pub merge_control_file_path : Option String
  pub merge_control_status : Option String
  pub merge_control_warning : Option String
  pub merge_control_error_code : Option String

-- An optional text as a value, and `bool` of it.
abbrev pub optional : Option String → Value
optional none = null
optional (some t) = text t

abbrev pub has : Option String → Bool
has o = truthy (optional o)

abbrev pub items_length : Items → ℕ
items_length nil = 0
items_length (cons _ xs) = suc (items_length xs)

abbrev pub ensure_finished : EnsureAsientosContablesResult → Value → Value → Dict
ensure_finished r elapsed now = completed_updates_with now elapsed (
    ok_result (
      entry "clients_base_path" (text r.clients_base_path) (
        entry "clients_scanned" (num r.clients_scanned) (
          entry "credit_folders_scanned" (num r.credit_folders_scanned) (
            entry "folders_created" (num r.folders_created) (
              entry "folders_already_present" (num r.folders_already_present) (
                entry "folders_failed" (num (items_length r.errors)) (
                  entry "subfolder_names" (arr r.subfolder_names)
                    (entry "errors" (arr r.errors) empty)))))))))

abbrev pub validate_finished : ValidationSummary → Value → Value → Dict
validate_finished r elapsed now = completed_updates now (
    ok_result (
      entry "reaction_time_ms" elapsed (
        entry "processed_rows" (num r.processed_rows) (
          entry "ok_count" (num r.ok_count) (
            entry "no_count" (num r.no_count) (
              entry "error_count" (num r.error_count)
                (entry "errors" (arr r.row_errors) empty)))))))

unfoldable pub email_sent : ValidarExtractosNotifyResult → Bool
email_sent r = leb 200 r.graph_sendmail_http_status && ltb r.graph_sendmail_http_status 300

unfoldable pub email_pdf_action : ValidarExtractosNotifyResult → String
email_pdf_action r =
    if has r.email_pdf_path
    then "created"
    else if has r.email_pdf_error
    then "failed"
    else "skipped"

unfoldable pub notify_result : ValidarExtractosNotifyResult → Value
unfolding email_sent email_pdf_action
notify_result r = ok_result (
    entry "report_date" (text r.report_date) (
      entry "historical_file_path" (text r.historical_file_path) (
        entry "historical_file_source" (text r.historical_file_source) (
          entry "historico_excel_path" (text r.historico_excel_path) (
            entry "rows_included" (num r.rows_included) (
              entry "subject" (text r.subject) (
                entry "attachments_count" (num r.attachments_count) (
                  entry "email_pdf_path" (optional r.email_pdf_path) (
                    entry "email_pdf_error" (optional r.email_pdf_error) (
                      entry "email_sent" (bool (email_sent r)) (
                        entry "email_pdf_action" (text (email_pdf_action r)) (
                          entry "graph_sendmail_http_status" (num r.graph_sendmail_http_status) (
                            entry "mail_sender" (text r.mail_sender) (
                              entry "mail_to" (text r.mail_to) (
                                entry "merge_control_registered" (bool (has r.email_pdf_path)) (
                                  entry "merge_control_updated" (bool r.merge_control_updated) (
                                    entry "merge_control_file_path"
                                      (optional r.merge_control_file_path)
                                      (entry "merge_control_status"
                                        (optional r.merge_control_status)
                                        (entry "merge_control_warning"
                                          (optional r.merge_control_warning)
                                          (entry "merge_control_error_code"
                                            (optional r.merge_control_error_code)
                                            empty))))))))))))))))))))

abbrev pub notify_finished : ValidarExtractosNotifyResult → Value → Value → Dict
notify_finished r elapsed now = completed_updates_with now elapsed (notify_result r)

module _ {S : Type 0} (st : JobStore S) where
  unfoldable pub execute_ensure_asientos_contables_job :
      Act S EnsureAsientosContablesResult → String → Act S (Unit {0})
  execute_ensure_asientos_contables_job ensure_asientos_contables_folders id =
      run_guarded st id (entry "type" (text "ensure_asientos_contables") empty)
        ensure_asientos_contables_folders ensure_finished failed_by_text

  unfoldable pub execute_validate_payment_report_job :
      Act S ValidationSummary → String → Act S (Unit {0})
  execute_validate_payment_report_job validate_payment_report_and_replace_excel id =
      run_guarded st id empty validate_payment_report_and_replace_excel validate_finished
        failed_by_text

  unfoldable pub execute_notify_validar_extractos_job :
      Act S ValidarExtractosNotifyResult → String → Act S (Unit {0})
  execute_notify_validar_extractos_job send_validar_extractos_notification_email id =
      run_guarded st id (entry "type" (text "notify_validar_extractos") empty)
        send_validar_extractos_notification_email notify_finished failed_by_text
