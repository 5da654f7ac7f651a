-- ===== src/Apply/Table.antt =====
-- `_apply_one_table` (app/application/use_cases/amortization_fill_apply.py): the loop over the planned
-- items of one table, its upload and its verification. The world, the bytes and the workbook are
-- parameters, and so are the Graph client and the operations on the workbook
-- (app/application/services/amortization_workbook.py), which read the item that they are given. The
-- details of the messages are left out.
use automitizacion_hbi_capit.Base.{
  String, Bool, true, false, not, ◌&&◌, ◌||◌, Option, none, some, List, [], ◌∷◌, ◌++◌,
  if◌then◌else◌, ◌==◌, member,
}
use automitizacion_hbi_capit.Json.{
  Value, null, bool, text, obj, Dict, empty, entry, holds, truthy, is_text,
}
use automitizacion_hbi_capit.Json.Ops.{lookup, insert}
use automitizacion_hbi_capit.Effects.{Exn, error, Result, ok, raised}
use Prim.Native.String.{slice, ◌++◌ as ◌+++◌}
use automitizacion_hbi_capit.Review.{str_of, cell_text, digits}
use automitizacion_hbi_capit.Apply.{dict_field, LogRow, check_idempotency, count_field}

-- The operations on the workbook that the loop calls.
pub record Sheets (B W : Type 0) : Type 0 where
  pub load : B → W
  pub save : W → B
  -- the name of the sheet, or the message of `AmortizationSheetNotFoundError`
  pub resolve_worksheet : W → Dict → Result String
  pub log_index : W → String → Option LogRow
  pub compare_existing_application : W → Dict → String
  pub write_payment_application : W → Dict → W × Dict
  pub write_ibr : W → Dict → W
  pub append_automation_log : W → String → Dict → W
  pub verify_uploaded_table : B → String → List Dict → List String

pub record TableResult : Type 0 where
  pub items : List Dict
  pub uploaded : Bool
  pub upload_status : String
  pub verification_status : String

-- The state of the loop.
pub record Progress (W : Type 0) : Type 0 where
  pub wb : W
  pub results : List Dict
  pub ibr_written_for_cut : List String
  pub applied_for_verify : List Dict

-- `{k: v for k, v in item.items() if not str(k).startswith("apply_")}`
unfoldable pub base_of : Dict → Dict
base_of empty = empty
base_of (entry k v d) =
    let rest = base_of d in if slice k 0 6 == "apply_" then rest else entry k v rest

abbrev pub error_row : String → Dict → Dict
error_row code base =
    insert "apply_error_code" (text code) (insert "apply_status" (text "ERROR") base)

abbrev pub changed_row : String → Dict → Dict
changed_row reason base =
    insert "apply_message" (text (if reason == "" then "PDF cambió con la misma ruta" else reason))
      (error_row "PDF_CHANGED_SAME_PATH" base)

abbrev pub skipped_row : Dict → Dict
skipped_row base =
    insert "apply_message" (text "Evento ya registrado en _AUTOMATION_LOG (misma huella)")
      (insert "apply_status" (text "SKIPPED_IDEMPOTENT") base)

-- `item.get("error_code") or "ROW_NOT_PLANNED"`
abbrev pub code_or_not_planned : Dict → String
code_or_not_planned item =
    if holds (lookup "error_code" item)
    then cell_text (lookup "error_code" item)
    else "ROW_NOT_PLANNED"

abbrev pub is_none : Option Value → Bool
is_none none = true
is_none (some null) = true
is_none (some _) = false

-- `str(v or "")`
abbrev raw_text : Option Value → String
raw_text none = ""
raw_text (some v) = if truthy v then str_of v else ""

-- `sheet_name or base.get("sheet_name")`
abbrev name_or : String → Option Value → Value
name_or name none = if name == "" then null else text name
name_or name (some v) = if name == "" then v else text name

abbrev pub safety_error : String → Exn
safety_error m = error "AmortizationApplySafetyError" m

module _ {B W : Type 0} (sheets : Sheets B W) (sheet_name : String) where
  abbrev pub with_result : Progress W → Dict → Progress W
  with_result p row = record {
    wb = p.wb;
    results = p.results ++ row ∷ [];
    ibr_written_for_cut = p.ibr_written_for_cut;
    applied_for_verify = p.applied_for_verify;
  }

  -- Whether the IBR of the item's cut is to be written, and where.
  abbrev cut_key : Dict → String
  cut_key item =
      digits (count_field "ibr_row" item) +++ "|" +++ raw_text (lookup "fecha_limite_pago" item)

  abbrev writes_ibr : List String → Dict → Bool
  writes_ibr seen item =
      let block = dict_field "ibr" item in
      is_text (lookup "status" block) "WOULD_WRITE_IBR"
      && not (member (cut_key item) seen)
      && not (is_none (lookup "value" block))

  -- An item that is applied or adopted: the IBR, the log and the result.
  abbrev pub written : Progress W → Dict → String → String → W × Dict → Progress W
  written p item status accion (wb, plan) =
      let ibr = writes_ibr p.ibr_written_for_cut item in
      let wb' = if ibr then sheets.write_ibr wb item else wb in
      let row = insert "write_plan" (obj plan) (
        insert "sheet_name" (name_or sheet_name (lookup "sheet_name" (base_of item))) (
          insert "apply_ibr_written" (bool ibr) (
            insert "apply_accion" (text accion)
              (insert "apply_status" (text status) (base_of item))))) in
      record {
        wb = sheets.append_automation_log wb' accion item;
        results = p.results ++ row ∷ [];
        ibr_written_for_cut =
            if ibr then cut_key item ∷ p.ibr_written_for_cut else p.ibr_written_for_cut;
        applied_for_verify = p.applied_for_verify ++ row ∷ [];
      }

  -- One turn of the loop.
  unfoldable pub apply_item : (String → Option LogRow) → Progress W → Dict → Result (Progress W)
  unfolding check_idempotency base_of insert lookup digits cell_text str_of
  apply_item log p item =
      let check = check_idempotency item log in
      let compare = sheets.compare_existing_application p.wb item in
      if check.pdf_changed
      then ok (with_result p (changed_row check.reason (base_of item)))
      else if check.skip_idempotent
      then ok (with_result p (skipped_row (base_of item)))
      else if is_none (lookup "application_row" item) || is_none (lookup "ibr_row" item)
      then ok (with_result p (error_row (code_or_not_planned item) (base_of item)))
      else if compare == "REVISION_MANUAL"
      then raised (safety_error "apply abortado")
      else if is_text (lookup "application_status" item) "WOULD_APPLY"
      then (if not (compare == "APLICADO")
          then raised (safety_error "Se esperaba fila vacía")
          else ok
              (written p item "APPLIED" "APLICADO" (sheets.write_payment_application p.wb item)))
      else ok (written p item "ADOPTED" "ADOPTADO_EXISTENTE" (p.wb, empty))

  unfoldable pub apply_items :
      (String → Option LogRow) → Progress W → List Dict → Result (Progress W)
  unfolding apply_item
  apply_items log p [] = ok p
  apply_items log p (item ∷ items) = elim (apply_item log p item) [
    | ok p' ↦ apply_items log p' items
    | raised e ↦ raised e
  ]
