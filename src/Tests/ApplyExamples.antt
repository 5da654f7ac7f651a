-- ===== src/Tests/ApplyExamples.antt =====
-- The theorems on the apply of the amortization tables at one table in a drive in memory.
use automitizacion_hbi_capit.Base.{
  ◌≡◌, refl, String, true, false, List, [], ◌∷◌, none, some, ◌==◌, if◌then◌else◌,
}
use automitizacion_hbi_capit.Json.{num, text, obj, Dict, empty, entry}
use automitizacion_hbi_capit.Json.Ops.{lookup, insert}
use automitizacion_hbi_capit.Base.Texts.{strip}
use automitizacion_hbi_capit.Review.{cell_text}
use automitizacion_hbi_capit.Effects.{Result, ok, raised}
use Prim.Native.String.{◌++◌ as ◌+++◌}
use automitizacion_hbi_capit.Tests.Drive.{Files, memory}
use automitizacion_hbi_capit.Base.{◌&&◌}
use automitizacion_hbi_capit.Jobs.Amortization.{guardrails, Guardrails}
use automitizacion_hbi_capit.Apply.{LogRow, check_idempotency, apply_summarize, count_status}
use automitizacion_hbi_capit.Apply.Checks.{check_idempotency-logged, apply_summarize-guardrails}
use automitizacion_hbi_capit.Apply.Table.{Sheets, TableResult, apply_item, apply_items, base_of}
use automitizacion_hbi_capit.Apply.Upload.{apply_one_table, upload_table, nothing_applied}
use automitizacion_hbi_capit.Apply.Told.{Told, apply_one_table-Told}
use automitizacion_hbi_capit.Json.{arr, cons, nil}
use automitizacion_hbi_capit.Effects.{Act}
use automitizacion_hbi_capit.Apply.Preflight.{item_warnings_allowed}
use automitizacion_hbi_capit.Apply.Run.{preflight_failed, run_amortization_fill_apply}
use automitizacion_hbi_capit.Apply.Outcome.{EndsHonest, run_amortization_fill_apply-EndsHonest}
use automitizacion_hbi_capit.Apply.Refused.{Among, run_amortization_fill_apply-stopped}

-- A table is a text, which every write makes longer.
abbrev text_sheets : Sheets String String
text_sheets = record {
  load = λ b. b;
  save = λ w. w;
  resolve_worksheet = λ w item. ok "Hoja1";
  log_index = λ w key. none;
  compare_existing_application = λ w item. "APLICADO";
  write_payment_application = λ w item. (w +++ "+pago", entry "H5" (text "=F5") empty);
  write_ibr = λ w item. w +++ "+ibr";
  append_automation_log = λ w accion item. w +++ "+" +++ accion;
  verify_uploaded_table = λ b name applied. [];
}

abbrev planned_item : Dict
planned_item = entry "idempotency_key" (text "k1") (
    entry "application_row" (num 5) (
      entry "ibr_row" (num 4) (
        entry "asiento_pdf_hash" (text "h2")
          (entry "application_status" (text "WOULD_APPLY") empty))))

abbrev drive : Files String
drive path = if path == "tabla.xlsx" then some "v1" else none

abbrev reported : Result TableResult → TableResult
reported (ok t) = t
reported (raised e) = nothing_applied []

abbrev run : Result TableResult × Files String
run = apply_one_table (memory String) text_sheets "tabla.xlsx" (planned_item ∷ []) drive

apply_one_table-Told_example : Told (memory String) text_sheets "tabla.xlsx" (reported run.0)
unfolding apply_one_table cell_text strip upload_table apply_items apply_item check_idempotency
    base_of insert lookup
apply_one_table-Told_example =
    apply_one_table-Told (memory String) text_sheets "tabla.xlsx" (planned_item ∷ []) drive run.1
      (reported run.0) refl

abbrev logged : LogRow
logged = record { pdf_hash = "h1"; pdf_etag = "" }

check_idempotency-logged_example :
    let c = check_idempotency planned_item (λ key. some logged) in
    (c.pdf_changed ≡ true) × (c.skip_idempotent ≡ false)
unfolding lookup cell_text strip
check_idempotency-logged_example =
    check_idempotency-logged planned_item (λ key. some logged) logged refl refl

abbrev skipped_items : List Dict
skipped_items = insert "apply_status" (text "SKIPPED_IDEMPOTENT") planned_item ∷ []

abbrev skipped_result : Dict
skipped_result =
    entry "summary" (obj (apply_summarize skipped_items))
      (entry "tables_uploaded" (arr nil) (entry "tables_summary" (arr nil) empty))

apply_summarize-guardrails_example :
    (g : Guardrails) × (guardrails skipped_result ≡ ok g)
    × ((g.all_skipped_idempotent && g.apply_wrote_changes) ≡ false)
unfolding lookup count_status insert
apply_summarize-guardrails_example =
    apply_summarize-guardrails skipped_result skipped_items [] nil refl refl refl

-- A dry run of one item on one table.
abbrev dry : Dict → Act (Files String) Dict
dry item s = (
  ok (
      entry "items"
        (arr (cons (obj (insert "tabla_amortizacion_path" (text "tabla.xlsx") item)) nil)) empty),
  s,
)

abbrev found_drive : Act (Files String) (Unit {0})
found_drive s = (ok tt, s)

run_amortization_fill_apply-EndsHonest_example :
    EndsHonest
      (run_amortization_fill_apply (memory String) text_sheets (dry planned_item) found_drive drive)
run_amortization_fill_apply-EndsHonest_example =
    run_amortization_fill_apply-EndsHonest (memory String) text_sheets (dry planned_item)
      found_drive _ drive drive drive refl refl

-- The run on it.
applied_once :
    elim (run_amortization_fill_apply
      (memory String)
      text_sheets
      (dry planned_item)
      found_drive
      drive).0 [ ok r ↦ lookup "applied" r.summary | raised e ↦ none ]
    ≡ some (num 1)
unfolding run_amortization_fill_apply insert lookup apply_one_table upload_table apply_items
    apply_item check_idempotency cell_text strip base_of count_status
applied_once = refl

abbrev warned_item : Dict
warned_item = insert "warnings" (arr (cons (text "PDF_UNREADABLE") nil)) planned_item

run_amortization_fill_apply-stopped_example :
    (code : String) × (run_amortization_fill_apply
        (memory String)
        text_sheets
        (dry warned_item)
        found_drive
        drive
      ≡ (ok (preflight_failed code), drive))
unfolding insert lookup item_warnings_allowed
run_amortization_fill_apply-stopped_example =
    run_amortization_fill_apply-stopped (memory String) text_sheets (dry warned_item) found_drive _
      (insert "tabla_amortizacion_path" (text "tabla.xlsx") warned_item) drive drive refl Among.here
      refl refl
