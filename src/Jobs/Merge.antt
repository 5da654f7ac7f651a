-- ===== src/Jobs/Merge.antt =====
-- app/application/jobs/merge_composite_validado_pdfs_job.py, with the result types of
-- app/application/use_cases/merge_composite_validado_pdfs.py, whose use case is a parameter.
pub mod Counts
use automitizacion_hbi_capit.Base.{
  ℕ, zero, suc, ◌+◌, ◌-◌, ◌≤◌, ◌<◌, String, ◌≡◌, ◌≢◌, refl, sym, ap, ◌∙◌, ◌⊎◌, inl, inr, Bool, true,
  false, not, ◌&&◌, ◌||◌, Option, none, some, List, [], ◌∷◌, map, length, if◌then◌else◌, ◌==◌,
  eq_iff, arith, member, Bool-cases, ltb, leb, eqb,
}
use automitizacion_hbi_capit.Json.{
  Value, null, bool, num, text, iso, arr, obj, Items, nil, cons, Dict, empty, entry, holds, truthy,
  text_of, is_text,
}
use automitizacion_hbi_capit.Json.Ops.{lookup, is_unique, update, insert}
use automitizacion_hbi_capit.Effects.{
  Reason, Exn, skipped, error, Result, ok, raised, Act, pure, raise, ◌>>=◌, ◌>>◌, attempt, reraise,
  gets, bind_rule, bind_from,
}
use automitizacion_hbi_capit.Store.{JobStore, KeepsFields, job_field}
use automitizacion_hbi_capit.Store.Memory.{isoformat}
use automitizacion_hbi_capit.RunGuard.{
  terminal_statuses, status_of, begin_job_execution, exn_message, exn_type, error_value,
  run_job_body, is_running, running_updates,
}
use automitizacion_hbi_capit.RunGuard.Begin.{may_begin, IsExtra, begin_job_execution_decides}
use package.text.Mathlib.Text.{starts_with}
use automitizacion_hbi_capit.Jobs.{
  unless_skipped, completed_updates, completed_updates_with, failed_updates, failed_by_text,
  ok_result, try_use_case, persist_exception, run_guarded,
}

pub record MergeCompositePdfOutput : Type 0 where
  pub id_pago : String
  pub output_relative_path : String
  pub bytes_written : ℕ
  pub sources_summary : String
  pub cliente : String
  pub credito : String
  pub email_pdf_path : String
  pub asiento_pdf_path : String
  pub asiento_pdf_paths : Items
  pub extracto_pdf_path : String
  pub credit_items : Items

pub record MergeCompositeValidadoPdfsResult : Type 0 where
  pub report_date_iso : String
  pub historico_excel_path : String
  pub estado_linea_contains : String
  pub email_pdf_used : String
  pub outputs : List MergeCompositePdfOutput
  pub skipped_payments : Items
  pub merge_control_file_path : String
  pub merge_control_updated : Bool
  pub merge_control_status : Value
  pub outputs_count : ℕ
  pub skipped_count : ℕ
  pub merge_manifest_path : String

pub data FileAction : Type 0 where
  created reused skipped_file : FileAction

abbrev pub action_text : FileAction → String
action_text created = "created"
action_text reused = "reused"
action_text skipped_file = "skipped"

unfoldable pub file_action : MergeCompositePdfOutput → FileAction
file_action o =
    if ltb 0 o.bytes_written
    then created
    else if eqb o.bytes_written 0 && starts_with o.sources_summary "already_consolidated"
    then reused
    else skipped_file

abbrev pub is_reused : FileAction → Bool
is_reused reused = true
is_reused _ = false

-- What the loop over the outputs adds up.
pub record Tally : Type 0 where
  pub files_created : ℕ
  pub files_reused : ℕ
  pub bytes_written_total : ℕ

abbrev pub count_action : FileAction → Tally → Tally
count_action created t = record t { files_created = suc t.files_created }
count_action reused t = record t { files_reused = suc t.files_reused }
count_action skipped_file t = t

unfoldable pub tally_from : Tally → List MergeCompositePdfOutput → Tally
unfolding file_action
tally_from t [] = t
tally_from t (o ∷ os) =
    let u = count_action (file_action o) t in
    tally_from (record u { bytes_written_total = u.bytes_written_total + o.bytes_written }) os

unfoldable pub tally : List MergeCompositePdfOutput → Tally
unfolding tally_from
tally = tally_from (record { files_created = 0; files_reused = 0; bytes_written_total = 0 })

unfoldable pub output_payload : MergeCompositePdfOutput → Dict
unfolding file_action
output_payload o = entry "id_pago" (text o.id_pago) (
    entry "cliente" (text o.cliente) (
      entry "credito" (text o.credito) (
        entry "email_pdf_path" (text o.email_pdf_path) (
          entry "asiento_pdf_path" (text o.asiento_pdf_path) (
            entry "asiento_pdf_paths" (arr o.asiento_pdf_paths) (
              entry "extracto_pdf_path" (text o.extracto_pdf_path) (
                entry "credit_items" (arr o.credit_items) (
                  entry "output_relative_path" (text o.output_relative_path) (
                    entry "output_path" (text o.output_relative_path) (
                      entry "bytes_written" (num o.bytes_written) (
                        entry "sources_summary" (text o.sources_summary) (
                          entry "file_action" (text (action_text (file_action o))) (
                            entry "reused_existing" (bool (is_reused (file_action o)))
                              empty)))))))))))))

unfoldable pub outputs_payload : List MergeCompositePdfOutput → Items
unfolding output_payload
outputs_payload [] = nil
outputs_payload (o ∷ os) = cons (obj (output_payload o)) (outputs_payload os)

unfoldable pub already_consolidated : List MergeCompositePdfOutput → Bool
unfolding tally
already_consolidated os =
    ltb 0 (length os) && eqb (tally os).files_created 0 && eqb (tally os).files_reused (length os)

unfoldable pub primary_artifact_action : Tally → String
primary_artifact_action t =
    if ltb 0 t.files_created then "created" else if ltb 0 t.files_reused then "reused" else "none"

unfoldable pub merge_result : Bool → MergeCompositeValidadoPdfsResult → Value
unfolding tally outputs_payload already_consolidated primary_artifact_action
merge_result force_rebuild r =
    let t = tally r.outputs in
    ok_result (
      entry "report_date_iso" (text r.report_date_iso) (
        entry "historico_excel_path" (text r.historico_excel_path) (
          entry "estado_linea_contains" (text r.estado_linea_contains) (
            entry "email_pdf_used" (text r.email_pdf_used) (
              entry "outputs" (arr (outputs_payload r.outputs)) (
                entry "skipped" (arr r.skipped_payments) (
                  entry "files_created" (num t.files_created) (
                    entry "files_reused" (num t.files_reused) (
                      entry "files_skipped" (num r.skipped_count) (
                        entry "primary_artifact_action" (text (primary_artifact_action t)) (
                          entry "pdf_created" (bool (ltb 0 t.files_created)) (
                            entry "pdf_reused" (bool (ltb 0 t.files_reused)) (
                              entry "already_consolidated" (bool (already_consolidated r.outputs)) (
                                entry "force_rebuild_used" (bool force_rebuild) (
                                  entry "bytes_written_total" (num t.bytes_written_total) (
                                    entry "merge_control_file_path" (text r.merge_control_file_path)
                                      (entry "merge_control_updated" (bool r.merge_control_updated)
                                        (entry "merge_control_status" r.merge_control_status (
                                          entry "merge_manifest_path" (text r.merge_manifest_path) (
                                            entry "outputs_count" (num r.outputs_count) (
                                              entry "skipped_count" (num r.skipped_count)
                                                empty)))))))))))))))))))))

abbrev pub merge_finished : Bool → MergeCompositeValidadoPdfsResult → Value → Value → Dict
merge_finished force_rebuild r elapsed now =
    completed_updates_with now elapsed (merge_result force_rebuild r)

module _ {S : Type 0} (st : JobStore S) where
  unfoldable pub execute_merge_composite_validado_pdfs_job :
      Act S MergeCompositeValidadoPdfsResult → String → Bool → Act S (Unit {0})
  execute_merge_composite_validado_pdfs_job merge_composite_validado_pdfs id force_rebuild =
      run_guarded st id (entry "type" (text "merge_composite_validado_pdfs") empty)
        merge_composite_validado_pdfs (merge_finished force_rebuild) failed_by_text
