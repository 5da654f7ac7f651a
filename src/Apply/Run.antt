-- ===== src/Apply/Run.antt =====
-- `run_amortization_fill_apply` and what it counts: `_writable_planned_items`
-- (app/application/use_cases/amortization_fill_apply.py) and `build_table_apply_summary`
-- (app/application/services/amortization_apply_safety.py). The dry run and the look for the drive are
-- parameters; the texts of the preflight's messages, the item of an aborted table and what the answer
-- repeats of the dry run are left out.
use automitizacion_hbi_capit.Base.{
  ℕ, suc, String, Bool, true, false, not, ◌&&◌, ◌||◌, Option, none, some, List, [], ◌∷◌, ◌++◌, map,
  if◌then◌else◌, ◌==◌, leb,
}
use automitizacion_hbi_capit.Base.Texts.{strip}
use automitizacion_hbi_capit.Json.{
  num, text, obj, Items, nil, cons, Dict, empty, entry, holds, is_text,
}
use automitizacion_hbi_capit.Json.Ops.{lookup, insert}
use automitizacion_hbi_capit.Effects.{
  Exn, skipped, error, Result, ok, raised, Act, pure, ◌>>=◌, ◌>>◌, attempt,
}
use automitizacion_hbi_capit.Base.Texts.{take_chars}
use automitizacion_hbi_capit.Review.{cell_text}
use automitizacion_hbi_capit.Graph.{Graph, message}
use automitizacion_hbi_capit.Apply.{
  text_field, dict_field, list_field, count_field, count_status, apply_summarize,
}
use automitizacion_hbi_capit.Apply.Preflight.{validate_preflight}
use automitizacion_hbi_capit.Apply.Table.{Sheets, TableResult, error_row}
use automitizacion_hbi_capit.Apply.Upload.{apply_one_table}

-- `by_table[path].append(item)`; the tables keep the order in which they are met.
abbrev add_item : String → Dict → List (String × List Dict) → List (String × List Dict)
add_item path item [] = (path, item ∷ []) ∷ []
add_item path item ((p, items) ∷ tables) =
    let rest = add_item path item tables in
    if p == path then (p, items ++ item ∷ []) ∷ tables else (p, items) ∷ rest

-- The loop of `_writable_planned_items`.
unfoldable by_path : Items → List (String × List Dict) → List (String × List Dict)
unfolding lookup cell_text strip
by_path nil tables = tables
by_path (cons (obj item) vs) tables =
    let path = text_field "tabla_amortizacion_path" item in
    let status = lookup "application_status" item in
    let skips =
      holds (lookup "error_code" item)
      || (not (is_text status "WOULD_APPLY" || is_text status "WOULD_ADOPT_EXISTING")
          || path == "") in
    by_path vs (if skips then tables else add_item path item tables)
by_path (cons v vs) tables = by_path vs tables

-- The sort by `event_index` keeps the order of items that agree.
abbrev insert_item : Dict → List Dict → List Dict
insert_item item [] = item ∷ []
insert_item item (i ∷ items) =
    let rest = insert_item item items in
    if leb (count_field "event_index" item) (count_field "event_index" i)
    then item ∷ i ∷ items
    else i ∷ rest

abbrev sort_items : List Dict → List Dict
sort_items [] = []
sort_items (item ∷ items) = insert_item item (sort_items items)

unfoldable pub writable_planned_items : Dict → List (String × List Dict)
unfolding by_path
writable_planned_items dry_run =
    map (λ t. (t.0, sort_items t.1)) (by_path (list_field "items" dry_run) [])

-- `build_table_apply_summary`
abbrev writes_ibr_of : Dict → Bool
writes_ibr_of it =
    holds (lookup "apply_ibr_written" it)
    || (is_text (lookup "apply_status" it) "APPLIED"
        && is_text (lookup "status" (dict_field "ibr" it)) "WOULD_WRITE_IBR")

abbrev ibr_count : List Dict → ℕ
ibr_count [] = 0
ibr_count (it ∷ items) = let n = ibr_count items in if writes_ibr_of it then suc n else n

unfoldable pub build_table_apply_summary : String → List Dict → String → String → Dict
unfolding count_status lookup
build_table_apply_summary path items upload_status verification_status =
    entry "tabla_amortizacion_path" (text path) (
      entry "eventos_aplicados" (num (count_status "APPLIED" items)) (
        entry "eventos_adoptados" (num (count_status "ADOPTED" items)) (
          entry "eventos_idempotentes" (num (count_status "SKIPPED_IDEMPOTENT" items)) (
            entry "ibr_escritos" (num (ibr_count items)) (
              entry "errores" (num (count_status "ERROR" items)) (
                entry "upload_status" (text upload_status)
                  (entry "verification_status" (text verification_status) empty)))))))

-- What the loop over the tables collects.
pub record Collected : Type 0 where
  pub items : List Dict
  pub tables_uploaded : List String
  pub tables_summary : List Dict
  pub apply_errors : List Dict

abbrev pub nothing_yet : Collected
nothing_yet = record { items = []; tables_uploaded = []; tables_summary = []; apply_errors = [] }

abbrev table_error : String → String → String → Dict
table_error path code m =
    entry "tabla_amortizacion_path" (text path)
      (entry "error_code" (text code) (entry "message" (text m) empty))

abbrev error_if : Bool → Dict → List Dict
error_if true e = e ∷ []
error_if false e = []

abbrev is_failed : String → Bool
is_failed status =
    status == "POST_UPLOAD_VERIFICATION_FAILED"
    || status == "POST_UPLOAD_VERIFICATION_FAILED_FORMULA_MISMATCH"

unfoldable pub with_table : String → Collected → TableResult → Collected
unfolding build_table_apply_summary
with_table path c t = record {
  items = c.items ++ t.items;
  tables_uploaded = if t.uploaded then c.tables_uploaded ++ path ∷ [] else c.tables_uploaded;
  tables_summary =
      c.tables_summary
      ++ build_table_apply_summary path t.items t.upload_status t.verification_status ∷ [];
  apply_errors =
      c.apply_errors
      ++ error_if (is_failed t.verification_status)
          (table_error path t.verification_status "Verificación post-upload falló")
      ++ error_if (t.upload_status == "EXCEL_LOCKED")
          (table_error path "EXCEL_LOCKED" "SharePoint devolvió 423 Locked tras reintentos");
}

abbrev pub error_rows : String → String → List Dict → List Dict
error_rows code m [] = []
error_rows code m (item ∷ items) =
    insert "apply_message" (text m) (error_row code item) ∷ error_rows code m items

unfoldable pub with_failure : String → List Dict → Collected → String → String → Collected
unfolding build_table_apply_summary insert
with_failure path planned c code m = record {
  items = c.items ++ error_rows code m planned;
  tables_uploaded = c.tables_uploaded;
  tables_summary =
      c.tables_summary
      ++ build_table_apply_summary path (error_rows code m planned) "failed" "skipped" ∷ [];
  apply_errors = c.apply_errors ++ table_error path code m ∷ [];
}

abbrev pub is_safety : Exn → Bool
is_safety (error name m) = name == "AmortizationApplySafetyError"
is_safety (skipped r) = false

-- One table, with both of its `except` clauses.
unfoldable pub collect : String → List Dict → Collected → Result TableResult → Collected
unfolding with_table with_failure
collect path planned c (ok t) = with_table path c t
collect path planned c (raised e) =
    if is_safety e
    then with_failure path planned c "APPLY_SAFETY_ABORT" (message e)
    else with_failure path planned c "TABLE_APPLY_FAILED" (take_chars 500 (message e))

pub record ApplyRun : Type 0 where
  pub status : String
  pub preflight_error_code : Option String
  pub collected : Collected
  pub summary : Dict

abbrev pub preflight_failed : String → ApplyRun
preflight_failed code = record {
  status = "preflight_failed";
  preflight_error_code = some code;
  collected = nothing_yet;
  summary = apply_summarize [];
}

abbrev run_status : List Dict → List String → String
run_status [] uploaded = "ok"
run_status (e ∷ errors) [] = "failed"
run_status (e ∷ errors) (p ∷ paths) = "partial"

abbrev pub finished : Collected → ApplyRun
finished c = record {
  status = run_status c.apply_errors c.tables_uploaded;
  preflight_error_code = none;
  collected = c;
  summary = apply_summarize c.items;
}

module _ {S B W : Type 0} (graph : Graph S B) (sheets : Sheets B W) where
  unfoldable pub apply_tables : List (String × List Dict) → Collected → Act S Collected
  unfolding collect apply_one_table
  apply_tables [] c = pure c
  apply_tables ((path, planned) ∷ tables) c =
      attempt (apply_one_table graph sheets path planned) >>= λ r.
      apply_tables tables (collect path planned c r)

  abbrev pub after_preflight : Act S (Unit {0}) → Dict → Result (Unit {0}) → Act S ApplyRun
  after_preflight drive_context dry_run (raised e) = pure (preflight_failed (message e))
  after_preflight drive_context dry_run (ok u) =
      drive_context
      >> (apply_tables (writable_planned_items dry_run) nothing_yet >>= λ c. pure (finished c))

  unfoldable pub run_amortization_fill_apply : Act S Dict → Act S (Unit {0}) → Act S ApplyRun
  unfolding validate_preflight writable_planned_items apply_tables
  run_amortization_fill_apply dry_run drive_context =
      dry_run >>= λ d. after_preflight drive_context d (validate_preflight d)
