-- ===== src/MergeControl/Notify.antt =====
-- `update_merge_control_workbook_after_notify`
-- (app/application/use_cases/merge_control_workbook_notify.py): the registration of a report's e-mail
-- in the control workbook. The warning texts of the outcomes are left out.
pub mod Registered
use automitizacion_hbi_capit.Base.{
  ℕ, zero, suc, ◌+◌, ◌-◌, ◌*◌, ◌/◌, ◌%◌, ◌≤◌, ◌<◌, String, ◌≡◌, ◌≢◌, refl, sym, ap, ◌∙◌, ◌↔◌, ◌⊎◌,
  inl, inr, Bool, true, false, not, ◌&&◌, ◌||◌, Option, none, some, List, [], ◌∷◌, ◌++◌, map,
  length, length-append, if◌then◌else◌, ◌==◌, eq_iff, eq_refl, eq→≡, arith, member, Bool-cases,
  Option-cases, ltb, leb, eqb, or_else, ltb→lt, lt→ltb, leb→le, le→leb, eq-false_of_ne,
}
use automitizacion_hbi_capit.Base.Signed.{ℤ, pos, negsuc, ◌+ℤ◌, ◌-ℤ◌, ltb_ℤ}
use automitizacion_hbi_capit.Base.Texts.{strip, upper, lower}
use automitizacion_hbi_capit.Json.{
  Value, null, bool, num, money, text, iso, arr, obj, Items, nil, cons, Dict, empty, entry, holds,
  truthy, text_of, is_text,
}
use automitizacion_hbi_capit.Json.Ops.{
  lookup, is_unique, update, insert, delete, contains, set_default, lookup-insert, lookup-delete,
  lookup-update_unique, dict_laws,
}
use automitizacion_hbi_capit.Effects.{
  Exn, skipped, error, Result, ok, raised, Act, pure, raise, ◌>>=◌, ◌>>◌, attempt, reraise, gets,
  bind_rule, bind_from,
}
use Prim.Native.String.{◌++◌ as ◌+++◌}
use automitizacion_hbi_capit.Base.Texts.{strip_slashes}
use automitizacion_hbi_capit.Effects.{bind-ok}
use automitizacion_hbi_capit.Sheets.{Row}
use automitizacion_hbi_capit.Graph.{Graph, IsDrive}
use automitizacion_hbi_capit.MergeControl.{
  ControlBook, no_sheet, sheet, headers_match, merge_control_columns, should_block_overwrite,
  registered, estado_of,
}
use automitizacion_hbi_capit.MergeControl.States.{Machine, at_rest, Step}

-- `MergeControlNotifyWriteOutcome`
pub record Outcome : Type 0 where
  pub merge_control_updated : Bool
  pub merge_control_status : Option String
  pub merge_control_error_code : Option String

abbrev pub refused : Option String → String → Outcome
refused status code = record {
  merge_control_updated = false;
  merge_control_status = status;
  merge_control_error_code = some code;
}

abbrev pub done : Outcome
done = record {
  merge_control_updated = true;
  merge_control_status = some "PENDIENTE_ASIENTOS";
  merge_control_error_code = none;
}

-- The code of a download that failed.
abbrev read_error : Exn → String
read_error (error name m) =
    if name == "HTTPStatusError" && m == "404"
    then "merge_control_workbook_not_found"
    else "merge_control_read_failed"
read_error (skipped r) = "merge_control_read_failed"

-- `(email_pdf_path or "").strip()`
abbrev pub is_missing : Option String → Bool
is_missing none = true
is_missing (some t) = strip t == ""

abbrev pub path_or_empty : Option String → String
path_or_empty none = ""
path_or_empty (some t) = t

-- `estado or None`
abbrev or_none : String → Option String
or_none t = if t == "" then none else some t

-- The sheet with the row of the report, or why it is not written.
unfoldable pub registered_book :
    String → String → String → String → ControlBook → Outcome ⊎ ControlBook
unfolding headers_match should_block_overwrite estado_of update
registered_book title hist pdf now no_sheet = inl (refused none "merge_control_invalid_structure")
registered_book title hist pdf now (sheet headers none) =
    inl (refused none "merge_control_invalid_structure")
registered_book title hist pdf now (sheet headers (some row)) =
    if not (headers_match merge_control_columns headers)
    then inl (refused none "merge_control_invalid_structure")
    else if should_block_overwrite row
    then inl (refused (or_none (estado_of row)) "merge_control_active_process_exists")
    else inr (sheet headers (some (update row (registered title hist pdf now))))

-- `load_workbook` and `wb.save` stand outside every `try`: what they raise is raised.
module _ {S B : Type 0} (graph : Graph S B) (load : B → Result ControlBook)
    (save : ControlBook → Result B) (now : S → String) (control_rel : String) where
  abbrev pub put_result : Result (Option String) → Act S Outcome
  put_result (ok url) = pure done
  put_result (raised e) = pure (refused none "merge_control_write_failed")

  abbrev pub put_book : Outcome ⊎ ControlBook → Act S Outcome
  put_book (inl o) = pure o
  put_book (inr wb) =
      reraise (save wb) >>= λ raw. attempt (graph.put_bytes control_rel raw) >>= put_result

  abbrev pub after_read : String → String → String → Result B → Act S Outcome
  after_read title hist pdf (raised e) = pure (refused none (read_error e))
  after_read title hist pdf (ok raw) =
      reraise (load raw) >>= λ wb. gets now >>= λ t. put_book (registered_book title hist pdf t wb)

  -- `report_d` is its text, `isoformat()`.
  unfoldable pub update_after_notify : String → Option String → String → Act S Outcome
  unfolding registered_book strip strip_slashes
  update_after_notify historical_file_path email_pdf_path report_d =
      if is_missing email_pdf_path
      then pure (refused none "missing_email_pdf_path_for_merge_control")
      else (attempt (graph.get_bytes control_rel)
          >>= after_read ("Merge " +++ report_d) (strip_slashes (strip historical_file_path))
              (strip_slashes (strip (path_or_empty email_pdf_path))))
