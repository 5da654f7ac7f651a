-- ===== src/Finalize/Lines.antt =====
-- The audit of the lines and of the totals in `finalize_payment_validation`
-- (app/application/use_cases/payment_validation_finalize.py), and the whole of the reading.
use automitizacion_hbi_capit.Base.{
  ℕ, suc, String, Bool, false, not, ◌&&◌, ◌||◌, Option, none, some, List, [], ◌∷◌, if◌then◌else◌,
  ◌==◌, member, ltb,
}
use automitizacion_hbi_capit.Base.Signed.{ℤ, pos, negsuc, ◌+ℤ◌, ◌-ℤ◌, ltb_ℤ}
use automitizacion_hbi_capit.Json.{Value, money, Dict, empty, entry}
use automitizacion_hbi_capit.Json.Ops.{lookup, insert, contains}
use automitizacion_hbi_capit.Effects.{Result, ok, raised}
use automitizacion_hbi_capit.Review.{
  id_pago_col, monto_banco_col, aplicar_a_extracto_col, mora_a_aplicar_col, otros_valores_col,
  total_aplicado_col, observacion_col, allowed_estados, finalize_forbidden, counters_positive_total,
  str_of, cell_text, is_validar_pago_si,
}
use automitizacion_hbi_capit.Sheets.{Sheet, read_table, safe_float}
use automitizacion_hbi_capit.Finalize.{
  Workbook, value_error, estado_of, str_or_none, then_do, read_control, check_control, montos_of,
  read_line, accounting_cell_filled, include_in_validation_outputs,
}

unfoldable pub check_estado : String → Result (Unit {0})
check_estado estado =
    if estado == "" || estado == "NONE"
    then raised (value_error "empty_estado_pago")
    else if not (member estado allowed_estados)
    then raised (value_error "invalid_estado_pago")
    else if member estado finalize_forbidden
    then raised (value_error "estado_pago_no_finalizable")
    else ok tt

-- Whether a line counts, and then wants its three amounts.
abbrev pub counts : String → Bool → Bool
counts estado vp_si = member estado counters_positive_total && vp_si

unfoldable pub check_cells : Bool → Dict → Result (Unit {0})
unfolding accounting_cell_filled
check_cells counted dist =
    if not counted
    then ok tt
    else if not (accounting_cell_filled (lookup aplicar_a_extracto_col dist))
    then raised (value_error "missing_valor_intereses")
    else if not (accounting_cell_filled (lookup mora_a_aplicar_col dist))
    then raised (value_error "missing_abono_k")
    else if not (accounting_cell_filled (lookup otros_valores_col dist))
    then raised (value_error "missing_mora")
    else ok tt

-- `int_f + abono_f + mora_f`
unfoldable pub total_of : Dict → ℤ
unfolding safe_float
total_of dist =
    safe_float (lookup aplicar_a_extracto_col dist)
    +ℤ safe_float (lookup mora_a_aplicar_col dist)
    +ℤ safe_float (lookup otros_valores_col dist)

-- The line with the amounts that the audit notes on it.
unfoldable pub noted : Dict → Dict
unfolding total_of safe_float insert
noted dist =
    let total = money (total_of dist) in
    insert "total_f" total (
      insert "abono_f" (money (safe_float (lookup mora_a_aplicar_col dist))) (
        insert "int_f" (money (safe_float (lookup aplicar_a_extracto_col dist))) (
          insert "mora_f" (money (safe_float (lookup otros_valores_col dist)))
            (insert total_aplicado_col total dist))))

abbrev pub is_positive : ℤ → Bool
is_positive z = ltb_ℤ (pos 0) z

-- `float` of a value of the two dictionaries, which hold amounts only
abbrev pub cents : Option Value → ℤ
cents (some (money z)) = z
cents _ = pos 0

-- The two dictionaries: the amounts of the bank, and the sums that are applied.
abbrev pub Books : Type 0
Books = Dict × Dict

unfoldable pub with_monto : String → Dict → Dict → Dict
unfolding contains safe_float insert
with_monto id dist montos =
    if contains id montos
    then montos
    else insert id (money (safe_float (lookup monto_banco_col dist))) montos

-- `elif estado in COUNTERS_POSITIVE_TOTAL and vp_si`, and the first branch before it
unfoldable pub settle : String → Bool → Dict → Dict → Result Dict
unfolding cell_text total_of insert str_of
settle estado vp_si dist sums =
    let id = str_or_none (lookup id_pago_col dist) in
    if (estado == "NORMAL" || estado == "INCOMPLETO") && not vp_si
    then (if cell_text (lookup observacion_col dist) == ""
        then raised (value_error "no_validar_requires_observation")
        else ok sums)
    else if counts estado vp_si
    then (if not (is_positive (total_of dist))
        then raised (value_error "validar_requires_positive_total")
        else ok (insert id (money (cents (lookup id sums) +ℤ total_of dist)) sums))
    else ok sums

-- One turn of the loop over the lines.
unfoldable pub check_line : Books → Dict → Result (Books × Dict)
unfolding estado_of is_validar_pago_si check_estado check_cells with_monto settle noted str_of
check_line (montos, sums) dist =
    let estado = estado_of dist in
    let vp_si = is_validar_pago_si dist in
    then_do (check_estado estado) λ _. then_do (check_cells (counts estado vp_si) dist) λ _.
      then_do (settle estado vp_si dist sums) λ sums'.
        ok ((with_monto (str_or_none (lookup id_pago_col dist)) dist montos, sums'), noted dist)

unfoldable pub check_lines : Books → List Dict → Result (Books × List Dict)
unfolding check_line
check_lines books [] = ok (books, [])
check_lines books (dist ∷ dists) =
    then_do (check_line books dist) λ r. then_do (check_lines r.0 dists) λ s. ok (s.0, r.1 ∷ s.1)

abbrev pub abs : ℤ → ℕ
abs (pos n) = n
abs (negsuc n) = suc n

-- `abs(sum_ap - monto_casos[idp]) > 0.01`, where the ID has an amount
abbrev pub is_mismatch : ℤ → Option Value → Bool
is_mismatch sum_ap none = false
is_mismatch sum_ap (some v) = ltb 1 (abs (sum_ap -ℤ cents (some v)))

unfoldable pub check_sums : Dict → Dict → Result (Unit {0})
unfolding ◌-ℤ◌
check_sums montos empty = ok tt
check_sums montos (entry idp v sums) =
    if is_mismatch (cents (some v)) (lookup idp montos)
    then raised (value_error "amount_mismatch")
    else check_sums montos sums

-- `sum(1 for d in distributions if _include_in_validation_outputs(d))`
unfoldable pub count_validated : List Dict → ℕ
unfolding include_in_validation_outputs
count_validated [] = 0
count_validated (dist ∷ dists) =
    let rest = count_validated dists in
    if include_in_validation_outputs dist then suc rest else rest

abbrev pub dists_of : List (ℕ × Dict) → List Dict
dists_of [] = []
dists_of (r ∷ rows) = read_line r ∷ dists_of rows

-- From the workbook to the lines that finalize goes on with.
unfoldable pub audit_lines : Dict → List Dict → Result (Books × List Dict)
unfolding check_lines check_sums
audit_lines montos dists =
    then_do (check_lines (montos, empty) dists) λ r. then_do (check_sums r.0.0 r.0.1) λ _. ok r

abbrev pub sheet_or : String → Option Sheet → Result Sheet
sheet_or name none = raised (value_error name)
sheet_or name (some sheet) = ok sheet

unfoldable pub audit : Workbook → Result (Books × List Dict)
unfolding read_control check_control montos_of read_table read_line audit_lines
audit wb = then_do (sheet_or "missing_control_sheet" wb.control) λ control.
    then_do (sheet_or "missing_distribucion_sheet" wb.distribucion) λ distribucion.
      then_do (read_control (record { procesar = none; estado = none }) control) λ c.
        then_do (check_control c) λ _. then_do (montos_of wb.casos_pago) λ montos.
          then_do (read_table id_pago_col distribucion) λ rows. audit_lines montos (dists_of rows)
