-- ===== src/MergeControl/Run.antt =====
-- A merge as far as the control workbook sees it (`merge_composite_validado_pdfs` of
-- app/application/use_cases/merge_composite_validado_pdfs.py, with the writes of
-- merge_control_workbook_merge.py). The Graph client, openpyxl, the clock, the joining of the PDFs and
-- the upload of the manifest are parameters.
pub mod Refines
pub mod Returned
use automitizacion_hbi_capit.Base.{
  ℕ, zero, suc, ◌+◌, ◌-◌, ◌*◌, ◌/◌, ◌%◌, ◌≤◌, ◌<◌, String, ◌≡◌, ◌≢◌, refl, sym, ap, ◌∙◌, ◌↔◌, ◌⊎◌,
  inl, inr, Bool, true, false, not, ◌&&◌, ◌||◌, Option, none, some, List, [], ◌∷◌, ◌++◌, map,
  length, length-append, if◌then◌else◌, ◌==◌, eq_iff, eq_refl, eq→≡, arith, member, Bool-cases,
  Option-cases, ltb, leb, eqb, or_else, ltb→lt, lt→ltb, leb→le, le→leb, eq-false_of_ne,
}
use automitizacion_hbi_capit.Base.Signed.{ℤ, pos, negsuc, ◌+ℤ◌, ◌-ℤ◌, ltb_ℤ}
use automitizacion_hbi_capit.Base.Texts.{strip, upper, lower}
use automitizacion_hbi_capit.Json.{
  Value, null, bool, num, money, text, iso, arr, obj, Items, nil, cons, Dict, empty, entry, holds,
  truthy, text_of, is_text,
}
use automitizacion_hbi_capit.Json.Ops.{
  lookup, is_unique, update, insert, delete, contains, set_default, lookup-insert, lookup-delete,
  lookup-update_unique, dict_laws,
}
use automitizacion_hbi_capit.Effects.{
  Exn, skipped, error, Result, ok, raised, Act, pure, raise, ◌>>=◌, ◌>>◌, attempt, reraise, gets,
  bind_rule, bind_from,
}
use automitizacion_hbi_capit.Graph.{Graph}
use automitizacion_hbi_capit.MergeControl.{
  ControlBook, Snapshot, validation_error, parse_for_merge, with_updates, consolidando,
  consolidado_success, merge_parcial, error_merge,
}

-- `raise ValueError(e.error_code)` for the errors of the control
abbrev pub as_value_error : Exn → Exn
as_value_error (skipped r) = skipped r
as_value_error (error name code) =
    if name == "MergeControlValidationError" then error "ValueError" code else error name code

abbrev pub is_validation : Exn → Bool
is_validation (skipped r) = false
is_validation (error name code) = name == "MergeControlValidationError"

-- A status 404 of the download
abbrev not_found : Exn → Exn
not_found (skipped r) = skipped r
not_found (error name m) =
    if name == "HTTPStatusError" && m == "404"
    then validation_error "merge_control_workbook_not_found"
    else error name m

-- What a merge returns of the control: its status and the two counts.
pub record Merged : Type 0 where
  pub merge_control_status : String
  pub outputs_count : ℕ
  pub skipped_count : ℕ

abbrev pub parcial_message : String
parcial_message =
    "La consolidación terminó con omisiones: revise los pagos listados en skipped y cargue o corrija los PDF de asientos o extractos faltantes."

abbrev pub parcial_action : String
parcial_action =
    "Corrija las rutas en el histórico o suba los archivos requeridos y ejecute de nuevo el endpoint de Merge."

-- The message names the state that was looked for and the file.
abbrev pub no_rows : Exn
no_rows = error "ValueError" "No hay filas cuyo Estado línea contenga el token"

module _ {S B : Type 0} (graph : Graph S B) (load : B → ControlBook) (save : ControlBook → B)
    (now : S → String) (control_rel : String) where
  abbrev pub stored : Result ControlBook → Act S (Unit {0})
  stored (ok wb) = graph.put_bytes control_rel (save wb) >>= λ url. pure tt
  stored (raised e) = raise e

  -- `merge_control_upload_row2_updates`
  unfoldable pub upload_row2_updates : Dict → Act S (Unit {0})
  unfolding with_updates
  upload_row2_updates updates =
      graph.get_bytes control_rel >>= λ raw. stored (with_updates updates (load raw))

  -- The four writes, each at its time.
  abbrev pub upload_at : (String → Dict) → Act S (Unit {0})
  upload_at updates = gets now >>= λ t. upload_row2_updates (updates t)

  abbrev pub downloaded : Result B → Act S B
  downloaded (ok raw) = pure raw
  downloaded (raised e) = raise (not_found e)

  -- From the start to CONSOLIDANDO.
  unfoldable pub start_merge : Act S Snapshot
  unfolding parse_for_merge upload_row2_updates
  start_merge = attempt (graph.get_bytes control_rel) >>= downloaded >>= λ raw.
      reraise (parse_for_merge (load raw)) >>= λ snapshot.
      upload_at consolidando >>= λ u. pure snapshot

  -- The end of a merge that has its counts.
  unfoldable pub finish_merge : ℕ × ℕ → Act S String
  unfolding upload_row2_updates
  finish_merge (oc, sc) =
      if ltb 0 oc && eqb sc 0
      then (upload_at (consolidado_success oc) >>= λ u. pure "CONSOLIDADO")
      else (upload_at (merge_parcial oc sc parcial_message parcial_action) >>= λ u.
          pure "MERGE_PARCIAL")

  module _ (consolidate : Snapshot → Act S (ℕ × ℕ)) (manifest : String → Act S String) where
    unfoldable pub run_merge : Snapshot → Act S Merged
    unfolding finish_merge
    run_merge snapshot = consolidate snapshot >>= λ counts.
        (if eqb counts.0 0 && eqb counts.1 0 then raise no_rows else finish_merge counts)
        >>= λ status. attempt (manifest status) >>= λ path. pure (record {
          merge_control_status = status;
          outputs_count = counts.0;
          skipped_count = counts.1;
        })

    -- The two `except` clauses, once the row is CONSOLIDANDO.
    abbrev pub closed : Result Merged → Act S Merged
    closed (ok merged) = pure merged
    closed (raised e) =
        if is_validation e
        then raise (as_value_error e)
        else attempt (
            upload_at (
              error_merge "Ocurrió un error durante la consolidación de PDFs."
                "Revise el detalle técnico del job, corrija el problema y vuelva a ejecutar Merge."))
          >>= λ r. raise e

    abbrev pub begun : Result Snapshot → Act S Merged
    begun (ok snapshot) = attempt (run_merge snapshot) >>= closed
    begun (raised e) = raise (as_value_error e)

    unfoldable pub merge_composite : Act S Merged
    unfolding start_merge run_merge
    merge_composite = attempt start_merge >>= begun
