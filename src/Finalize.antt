-- ===== src/Finalize.antt =====
-- The first half of `finalize_payment_validation`
-- (app/application/use_cases/payment_validation_finalize.py): the reading and the audit of the review
-- workbook, before anything is written. Amounts are whole cents.
pub mod Lines
pub mod Noted
pub mod Checks
pub mod Audit
pub mod Books
pub mod Balance
pub mod Run
pub mod Stored
use automitizacion_hbi_capit.Base.{
  ℕ, zero, suc, ◌+◌, ◌-◌, ◌*◌, ◌/◌, ◌%◌, ◌≤◌, ◌<◌, String, ◌≡◌, ◌≢◌, refl, sym, ap, ◌∙◌, ◌↔◌, ◌⊎◌,
  inl, inr, Bool, true, false, not, ◌&&◌, ◌||◌, Option, none, some, List, [], ◌∷◌, ◌++◌, map,
  length, length-append, if◌then◌else◌, ◌==◌, eq_iff, eq_refl, eq→≡, arith, member, Bool-cases,
  Option-cases, ltb, leb, eqb, or_else, ltb→lt, lt→ltb, leb→le, le→leb, eq-false_of_ne,
}
use automitizacion_hbi_capit.Base.Signed.{ℤ, pos, negsuc, ◌+ℤ◌, ◌-ℤ◌, ltb_ℤ}
use automitizacion_hbi_capit.Base.Texts.{strip, upper, lower}
use automitizacion_hbi_capit.Json.{
  Value, null, bool, num, money, text, iso, arr, obj, Items, nil, cons, Dict, empty, entry, holds,
  truthy, text_of, is_text,
}
use automitizacion_hbi_capit.Json.Ops.{
  lookup, is_unique, update, insert, delete, contains, set_default, lookup-insert, lookup-delete,
  lookup-update_unique, dict_laws,
}
use automitizacion_hbi_capit.Effects.{
  Exn, skipped, error, Result, ok, raised, Act, pure, raise, ◌>>=◌, ◌>>◌, attempt, reraise, gets,
  bind_rule, bind_from,
}
use automitizacion_hbi_capit.Review.{
  id_pago_col, estado_pago_col, validar_pago_col, monto_banco_col, aplicar_a_extracto_col,
  mora_a_aplicar_col, otros_valores_col, total_aplicado_col, observacion_col, allowed_estados,
  finalize_forbidden, counters_positive_total, str_of, cell_text, is_validar_pago_si,
  apply_legacy_estado_migration, normalize_distrib_row_keys,
}
use automitizacion_hbi_capit.Sheets.{Row, Sheet, read_table, float_of, safe_float}

-- The sheets of the workbook that the code looks for.
pub record Workbook : Type 0 where
  pub control : Option Sheet
  pub casos_pago : Option Sheet
  pub distribucion : Option Sheet

abbrev pub value_error : String → Exn
value_error name = error "ValueError" name

-- `str(d.get(k, ""))` and `str(d.get(k))`
abbrev pub str_or_empty : Option Value → String
str_or_empty none = ""
str_or_empty (some v) = str_of v

abbrev pub str_or_none : Option Value → String
str_or_none none = "None"
str_or_none (some v) = str_of v

-- The state of a line, `str(dist.get(ESTADO_PAGO, "")).strip().upper()`.
unfoldable pub estado_of : Dict → String
unfolding str_of strip upper
estado_of dist = upper (strip (str_or_empty (lookup estado_pago_col dist)))

-- `_include_in_validation_outputs`; the states are those that count.
unfoldable pub include_in_validation_outputs : Dict → Bool
unfolding estado_of is_validar_pago_si
include_in_validation_outputs dist =
    member (estado_of dist) counters_positive_total && is_validar_pago_si dist

-- The two cells that the control sheet is read for, each None until its row comes.
pub record Control : Type 0 where
  pub procesar : Option String
  pub estado : Option String

-- `row[1]` of a row that has a first cell
abbrev second : Row → Result String
second [] = raised (error "IndexError" "tuple index out of range")
second (v ∷ row) = ok (upper (cell_text (some v)))

abbrev note_procesar : Control → Result String → Result Control
note_procesar c (ok t) = ok (record { procesar = some t; estado = c.estado })
note_procesar c (raised e) = raised e

abbrev note_estado : Control → Result String → Result Control
note_estado c (ok t) = ok (record { procesar = c.procesar; estado = some t })
note_estado c (raised e) = raised e

abbrev control_row : Control → Row → Result Control
control_row c [] = ok c
control_row c (v ∷ row) =
    if is_text (some v) "Procesar"
    then note_procesar c (second row)
    else if is_text (some v) "Estado"
    then note_estado c (second row)
    else ok c

abbrev then_do {ℓ κ} : {A : Type ℓ} {B : Type κ} → Result A → (A → Result B) → Result B
then_do (ok a) f = f a
then_do (raised e) f = raised e

unfoldable pub read_control : Control → Sheet → Result Control
unfolding cell_text upper
read_control c [] = ok c
read_control c (row ∷ rows) = then_do (control_row c row) λ c'. read_control c' rows

abbrev is_option : Option String → String → Bool
is_option none t = false
is_option (some s) t = s == t

-- `not estado_ctrl`
abbrev is_blank : Option String → Bool
is_blank none = true
is_blank (some s) = s == ""

unfoldable pub check_control : Control → Result (Unit {0})
check_control c =
    if not (is_option c.procesar "SI")
    then raised (value_error "process_not_approved")
    else if is_blank c.estado
    then raised (value_error "missing_control_state")
    else if not (is_option c.estado "EN_REVISION")
    then raised (value_error "invalid_control_state")
    else ok tt

-- `monto_casos` from the table of the payments
unfoldable pub read_montos : List (ℕ × Dict) → Dict → Result Dict
unfolding float_of str_of insert
read_montos [] montos = ok montos
read_montos ((i, rd) ∷ rows) montos =
    then_do (float_of (lookup monto_banco_col rd))
      λ z. read_montos rows (insert (str_or_none (lookup id_pago_col rd)) (money z) montos)

unfoldable pub montos_of : Option Sheet → Result Dict
unfolding read_montos read_table
montos_of none = ok empty
montos_of (some sheet) = then_do (read_table id_pago_col sheet) λ rows. read_montos rows empty

-- A line as it is read: its keys renamed, its state brought to those of today, its number noted.
unfoldable pub read_line : ℕ × Dict → Dict
unfolding normalize_distrib_row_keys apply_legacy_estado_migration insert
read_line (i, rd) =
    insert "_excel_row" (num i) (apply_legacy_estado_migration (normalize_distrib_row_keys rd))

-- `_accounting_cell_filled`
unfoldable pub accounting_cell_filled : Option Value → Bool
unfolding strip str_of
accounting_cell_filled none = false
accounting_cell_filled (some null) = false
accounting_cell_filled (some (bool b)) = true
accounting_cell_filled (some (num n)) = true
accounting_cell_filled (some (money z)) = true
accounting_cell_filled (some v) = not (strip (str_of v) == "")
