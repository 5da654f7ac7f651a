-- ===== src/Apply/Upload.antt =====
-- The whole of `_apply_one_table` (app/application/use_cases/amortization_fill_apply.py): the sheet, the
-- items, the upload and the verification of one table.
use automitizacion_hbi_capit.Base.{
  ℕ, zero, suc, String, Bool, true, false, ◌&&◌, ◌||◌, Option, none, some, List, [], ◌∷◌,
  if◌then◌else◌, ◌==◌, eqb,
}
use automitizacion_hbi_capit.Json.{text, Dict}
use automitizacion_hbi_capit.Json.Ops.{insert}
use automitizacion_hbi_capit.Effects.{
  skipped, error, Result, ok, raised, Act, pure, raise, ◌>>=◌, attempt,
}
use Prim.Native.String.{◌++◌ as ◌+++◌}
use package.text.Mathlib.Text.{find?}
use automitizacion_hbi_capit.Base.Texts.{take_chars}
use automitizacion_hbi_capit.Graph.{Graph}
use automitizacion_hbi_capit.Apply.{mark_items_error}
use automitizacion_hbi_capit.Apply.Table.{Sheets, TableResult, Progress, error_row, apply_items}

abbrev pub failed_rows : String → List Dict → List Dict
failed_rows m [] = []
failed_rows m (item ∷ items) =
    insert "apply_message" (text m) (error_row "AMORTIZATION_SHEET_NOT_FOUND" item)
    ∷ failed_rows m items

abbrev pub not_found : String → List Dict → TableResult
not_found m planned = record {
  items = failed_rows m planned;
  uploaded = false;
  upload_status = "failed";
  verification_status = "skipped";
}

abbrev pub nothing_applied : List Dict → TableResult
nothing_applied results = record {
  items = results;
  uploaded = false;
  upload_status = "skipped";
  verification_status = "skipped";
}

abbrev pub locked : String → List Dict → TableResult
locked m results = record {
  items = mark_items_error "EXCEL_LOCKED" m results;
  uploaded = false;
  upload_status = "EXCEL_LOCKED";
  verification_status = "skipped";
}

-- `any("FORMULA_MISMATCH" in e for e in verify_errors)`
abbrev is_formula : String → Bool
is_formula t = elim (find? t "FORMULA_MISMATCH") [ none ↦ false | some i ↦ true ]

abbrev any_formula : List String → Bool
any_formula [] = false
any_formula (t ∷ ts) = is_formula t || any_formula ts

-- `"; ".join(verify_errors[:n])`
abbrev joined : ℕ → List String → String
joined zero ts = ""
joined (suc n) [] = ""
joined (suc n) (t ∷ []) = t
joined (suc n) (t ∷ u ∷ ts) = if eqb n 0 then t else t +++ "; " +++ joined n (u ∷ ts)

module _ {S B W : Type 0} (graph : Graph S B) (sheets : Sheets B W) where
  -- What the errors of the verification leave of the results.
  abbrev pub verified : List String → List Dict → TableResult
  verified [] results = record {
    items = results;
    uploaded = true;
    upload_status = "uploaded";
    verification_status = "ok";
  }
  verified (e ∷ errors) results =
      let status =
        if any_formula (e ∷ errors)
        then "POST_UPLOAD_VERIFICATION_FAILED_FORMULA_MISMATCH"
        else "POST_UPLOAD_VERIFICATION_FAILED" in
      record {
        items = mark_items_error status (joined 5 (e ∷ errors)) results;
        uploaded = true;
        upload_status = "uploaded";
        verification_status = status;
      }

  -- After the upload: a status 423 locks the table, and what was uploaded is read again.
  abbrev pub after_put : String → String → Progress W → Result (Option String) → Act S TableResult
  after_put path sheet p (ok url) = graph.get_bytes path >>= λ raw.
      pure (verified (sheets.verify_uploaded_table raw sheet p.applied_for_verify) p.results)
  after_put path sheet p (raised (error name m)) =
      if name == "HTTPStatusError" && m == "423"
      then pure (locked (take_chars 500 m) p.results)
      else raise (error name m)
  after_put path sheet p (raised (skipped r)) = raise (skipped r)

  unfoldable pub upload_table : String → String → Progress W → Act S TableResult
  upload_table path sheet p =
      attempt (graph.put_bytes path (sheets.save p.wb)) >>= after_put path sheet p

  abbrev pub finish_table : String → String → Result (Progress W) → Act S TableResult
  finish_table path sheet (raised e) = raise e
  finish_table path sheet (ok p) = elim p.applied_for_verify [
    | [] ↦ pure (nothing_applied p.results)
    | _ ∷ _ ↦ upload_table path sheet p
  ]

  abbrev pub on_sheet : String → List Dict → W → Result String → Act S TableResult
  on_sheet path planned wb (ok sheet) = finish_table path sheet (
      apply_items sheets sheet (sheets.log_index wb)
        (record { wb = wb; results = []; ibr_written_for_cut = []; applied_for_verify = [] })
        planned)
  on_sheet path planned wb (raised (error name m)) =
      if name == "AmortizationSheetNotFoundError"
      then pure (not_found m planned)
      else raise (error name m)
  on_sheet path planned wb (raised (skipped r)) = raise (skipped r)

  -- `planned_items[0]`; a table is planned with an item at least.
  abbrev pub resolved : W → List Dict → Result String
  resolved wb [] = raised (error "IndexError" "list index out of range")
  resolved wb (item ∷ items) = sheets.resolve_worksheet wb item

  unfoldable pub apply_one_table : String → List Dict → Act S TableResult
  unfolding upload_table apply_items mark_items_error
  apply_one_table path planned = graph.get_bytes path >>= λ raw.
      let wb = sheets.load raw in on_sheet path planned wb (resolved wb planned)
