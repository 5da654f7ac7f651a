-- ===== src/MergeControl.antt =====
-- Row 2 of the control workbook of the merge, by its columns
-- (app/application/use_cases/merge_control_workbook_merge.py, merge_control_workbook_notify.py and
-- setup_merge_control_workbook.py): what it says, and how each operation changes it.
pub mod States
pub mod Overlap
pub mod Ready
pub mod Notify
pub mod Run
use automitizacion_hbi_capit.Base.{
  ℕ, zero, suc, ◌+◌, ◌-◌, ◌*◌, ◌/◌, ◌%◌, ◌≤◌, ◌<◌, String, ◌≡◌, ◌≢◌, refl, sym, ap, ◌∙◌, ◌↔◌, ◌⊎◌,
  inl, inr, Bool, true, false, not, ◌&&◌, ◌||◌, Option, none, some, List, [], ◌∷◌, ◌++◌, map,
  length, length-append, if◌then◌else◌, ◌==◌, eq_iff, eq_refl, eq→≡, arith, member, Bool-cases,
  Option-cases, ltb, leb, eqb, or_else, ltb→lt, lt→ltb, leb→le, le→leb, eq-false_of_ne,
}
use automitizacion_hbi_capit.Base.Signed.{ℤ, pos, negsuc, ◌+ℤ◌, ◌-ℤ◌, ltb_ℤ}
use automitizacion_hbi_capit.Base.Texts.{strip, upper, lower}
use automitizacion_hbi_capit.Json.{
  Value, null, bool, num, money, text, iso, arr, obj, Items, nil, cons, Dict, empty, entry, holds,
  truthy, text_of, is_text,
}
use automitizacion_hbi_capit.Json.Ops.{
  lookup, is_unique, update, insert, delete, contains, set_default, lookup-insert, lookup-delete,
  lookup-update_unique, dict_laws,
}
use automitizacion_hbi_capit.Effects.{
  Exn, skipped, error, Result, ok, raised, Act, pure, raise, ◌>>=◌, ◌>>◌, attempt, reraise, gets,
  bind_rule, bind_from,
}
use automitizacion_hbi_capit.Base.Texts.{strip_slashes, take_chars}
use automitizacion_hbi_capit.Review.{str_of, cell_text}
use automitizacion_hbi_capit.Sheets.{Row}

-- `MERGE_CONTROL_COLUMNS`
abbrev pub merge_control_columns : List String
merge_control_columns =
    "Title" ∷ "EstadoProceso" ∷ "IsActive" ∷ "HistoricalFilePath" ∷ "EmailPdfPath"
    ∷ "MergeOutputCount" ∷ "MergeSkippedCount" ∷ "LastErrorUserMessage" ∷ "LastErrorNextAction"
    ∷ "CreatedAtProceso" ∷ "LastUpdatedAtProceso" ∷ []

-- The workbook as the code reads it: without the sheet "Procesos", or the sheet's first row and its
-- second, if it has one.
pub data ControlBook : Type 0 where
  no_sheet : ControlBook
  sheet : Row → Option Dict → ControlBook

-- `_headers_match`; a cell that is not there is empty.
unfoldable pub headers_match : List String → Row → Bool
unfolding cell_text
headers_match [] row = true
headers_match (exp ∷ columns) [] = exp == "" && headers_match columns []
headers_match (exp ∷ columns) (v ∷ row) = cell_text (some v) == exp && headers_match columns row

-- `_is_active_cell`
unfoldable pub is_active_cell : Option Value → Bool
unfolding str_of strip lower
is_active_cell none = false
is_active_cell (some null) = false
is_active_cell (some (bool b)) = b
is_active_cell (some v) =
    member (lower (strip (str_of v))) ("true" ∷ "1" ∷ "yes" ∷ "si" ∷ "sí" ∷ "x" ∷ [])

-- The two cells that decide, `_norm_estado` among them.
unfoldable pub estado_of : Dict → String
unfolding cell_text lookup
estado_of row = cell_text (lookup "EstadoProceso" row)

unfoldable pub is_active : Dict → Bool
unfolding is_active_cell lookup
is_active row = is_active_cell (lookup "IsActive" row)

-- `_MERGE_CONTROL_ACTIVE_ESTADOS` and `_MERGE_ALLOWED_ESTADOS`
abbrev pub active_estados : List String
active_estados = "PENDIENTE_ASIENTOS" ∷ "CONSOLIDANDO" ∷ "MERGE_PARCIAL" ∷ "ERROR_MERGE" ∷ []

abbrev pub merge_allowed_estados : List String
merge_allowed_estados = "PENDIENTE_ASIENTOS" ∷ "ERROR_MERGE" ∷ "MERGE_PARCIAL" ∷ []

-- `_should_block_overwrite` of the row
unfoldable pub should_block_overwrite : Dict → Bool
unfolding is_active estado_of
should_block_overwrite row = is_active row && member (estado_of row) active_estados

pub record Snapshot : Type 0 where
  pub historical_file_path : String
  pub email_pdf_path : String

abbrev pub validation_error : String → Exn
validation_error code = error "MergeControlValidationError" code

abbrev pub parse_row : Dict → Result Snapshot
parse_row row =
    let hist = cell_text (lookup "HistoricalFilePath" row) in
    let pdf = cell_text (lookup "EmailPdfPath" row) in
    if not (is_active row && member (estado_of row) merge_allowed_estados)
    then raised (validation_error "merge_control_no_pending_process")
    else if hist == ""
    then raised (validation_error "missing_historical_file_path")
    else if pdf == ""
    then raised (validation_error "missing_email_pdf_path")
    else ok (record {
      historical_file_path = strip_slashes (strip hist);
      email_pdf_path = strip_slashes (strip pdf);
    })

-- `merge_control_parse_row2_validate_for_merge`
unfoldable pub parse_for_merge : ControlBook → Result Snapshot
unfolding headers_match is_active estado_of cell_text strip strip_slashes lookup
parse_for_merge no_sheet = raised (validation_error "merge_control_invalid_structure")
parse_for_merge (sheet headers none) = raised (validation_error "merge_control_invalid_structure")
parse_for_merge (sheet headers (some row)) =
    if not (headers_match merge_control_columns headers)
    then raised (validation_error "merge_control_invalid_structure")
    else parse_row row

-- What `merge_control_upload_row2_updates` does to the workbook; every key is a column.
unfoldable pub with_updates : Dict → ControlBook → Result ControlBook
unfolding headers_match update
with_updates updates no_sheet = raised (error "KeyError" "Worksheet Procesos does not exist.")
with_updates updates (sheet headers none) =
    raised (error "ValueError" "merge_control_invalid_structure")
with_updates updates (sheet headers (some row)) =
    if not (headers_match merge_control_columns headers)
    then raised (error "ValueError" "merge_control_invalid_structure")
    else ok (sheet headers (some (update row updates)))

-- The updates of `merge_control_set_consolidando`, `..._consolidado_success`, `..._merge_parcial` and
-- `..._error_merge`, at a time.
abbrev pub consolidando : String → Dict
consolidando now =
    entry "EstadoProceso" (text "CONSOLIDANDO") (entry "LastUpdatedAtProceso" (text now) empty)

abbrev pub consolidado_success : ℕ → String → Dict
consolidado_success outputs_count now = entry "EstadoProceso" (text "CONSOLIDADO") (
    entry "IsActive" (bool false) (
      entry "MergeOutputCount" (num outputs_count) (
        entry "MergeSkippedCount" (num 0) (
          entry "LastErrorUserMessage" (text "") (
            entry "LastErrorNextAction" (text "")
              (entry "LastUpdatedAtProceso" (text now) empty))))))

abbrev pub merge_parcial : ℕ → ℕ → String → String → String → Dict
merge_parcial outputs_count skipped_count user_message next_action now =
    entry "EstadoProceso" (text "MERGE_PARCIAL") (
      entry "IsActive" (bool true) (
        entry "MergeOutputCount" (num outputs_count) (
          entry "MergeSkippedCount" (num skipped_count) (
            entry "LastErrorUserMessage" (text user_message) (
              entry "LastErrorNextAction" (text next_action)
                (entry "LastUpdatedAtProceso" (text now) empty))))))

abbrev pub error_merge : String → String → String → Dict
error_merge user_message next_action now = entry "EstadoProceso" (text "ERROR_MERGE") (
    entry "IsActive" (bool true) (
      entry "LastErrorUserMessage" (text (take_chars 4000 user_message)) (
        entry "LastErrorNextAction" (text (take_chars 4000 next_action))
          (entry "LastUpdatedAtProceso" (text now) empty))))

-- The cells that notify writes.
abbrev pub registered : String → String → String → String → Dict
registered title hist pdf now = entry "Title" (text title) (
    entry "EstadoProceso" (text "PENDIENTE_ASIENTOS") (
      entry "IsActive" (bool true) (
        entry "HistoricalFilePath" (text hist) (
          entry "EmailPdfPath" (text pdf) (
            entry "MergeOutputCount" (num 0) (
              entry "MergeSkippedCount" (num 0) (
                entry "LastErrorUserMessage" (text "") (
                  entry "LastErrorNextAction" (text "") (
                    entry "CreatedAtProceso" (text now)
                      (entry "LastUpdatedAtProceso" (text now) empty))))))))))

-- The row of a new workbook.
abbrev pub new_row : Dict
new_row = entry "Title" (text "") (
    entry "EstadoProceso" (text "VACIO") (
      entry "IsActive" (text "false") (
        entry "HistoricalFilePath" (text "") (
          entry "EmailPdfPath" (text "") (
            entry "MergeOutputCount" (num 0) (
              entry "MergeSkippedCount" (num 0) (
                entry "LastErrorUserMessage" (text "") (
                  entry "LastErrorNextAction" (text "") (
                    entry "CreatedAtProceso" (text "")
                      (entry "LastUpdatedAtProceso" (text "") empty))))))))))
