-- ===== src/Distribution.antt =====
-- The lines of the review workbook in app/application/use_cases/payment_validation_generate.py: one
-- for each extract that may belong to a payment, and what becomes of them. Dates are days; amounts are
-- whole cents, as `_round_money` leaves them.
pub mod Classes
pub mod States
pub mod Amounts
use Prim.Native.String.{◌++◌ as ◌+++◌}
use automitizacion_hbi_capit.Base.{
  ℕ, zero, suc, ◌+◌, ◌-◌, ◌*◌, ◌/◌, ◌%◌, ◌≤◌, ◌<◌, String, ◌≡◌, ◌≢◌, refl, sym, ap, ◌∙◌, ◌↔◌, ◌⊎◌,
  inl, inr, Bool, true, false, not, ◌&&◌, ◌||◌, Option, none, some, List, [], ◌∷◌, ◌++◌, map,
  length, length-append, if◌then◌else◌, ◌==◌, eq_iff, eq_refl, eq→≡, arith, member, Bool-cases,
  Option-cases, ltb, leb, eqb, or_else, ltb→lt, lt→ltb, leb→le, le→leb, eq-false_of_ne,
}
use automitizacion_hbi_capit.Base.Signed.{ℤ, pos, negsuc, ◌+ℤ◌, ◌-ℤ◌, ltb_ℤ}
use automitizacion_hbi_capit.Base.Texts.{strip, upper, lower}
use automitizacion_hbi_capit.Json.{
  Value, null, bool, num, money, text, iso, arr, obj, Items, nil, cons, Dict, empty, entry, holds,
  truthy, text_of, is_text,
}
use automitizacion_hbi_capit.Json.Ops.{
  lookup, is_unique, update, insert, delete, contains, set_default, lookup-insert, lookup-delete,
  lookup-update_unique, dict_laws,
}
use automitizacion_hbi_capit.Effects.{
  Exn, skipped, error, Result, ok, raised, Act, pure, raise, ◌>>=◌, ◌>>◌, attempt, reraise, gets,
  bind_rule, bind_from,
}
use automitizacion_hbi_capit.Review.{
  id_pago_col, estado_pago_col, validar_pago_col, monto_banco_col, observacion_col, str_of,
}

-- What the code reads of a payment of the bank.
pub record Payment : Type 0 where
  pub id_pago : String
  pub cliente : String
  pub concepto : String
  pub fecha_banco : ℕ
  pub monto_banco : ℤ

-- What the code reads of an extract that was found.
pub record Candidate : Type 0 where
  pub credito : String
  pub fecha_limite : Option ℕ
  pub valor_extracto : Option ℤ
  pub link_extracto : String
  pub link_tabla : String
  pub link_carpeta_credito : String
  pub ruta_extracto_pdf : String
  pub ruta_unidad_credito : String
  pub ruta_tabla_amortizacion : String
  pub credito_normalizado : String
  pub observacion_extra : String

-- `fecha.isoformat()` is a parameter of every definition that writes a date.
abbrev pub amount_cell : Option ℤ → Value
amount_cell none = null
amount_cell (some z) = money z

-- What the comparison of the two dates decides: the days in arrears, the state, the validation and the
-- remark.
pub record Verdict : Type 0 where
  pub dias_mora : ℕ
  pub estado : String
  pub validar : String
  pub observacion : String

abbrev pub manual : Verdict
manual = record {
  dias_mora = 0;
  estado = "REVISION_MANUAL";
  validar = "NO";
  observacion = "Información incompleta para aplicar automáticamente";
}

abbrev late : ℕ → Verdict
late days = record {
  dias_mora = days;
  estado = "ATRASADO";
  validar = "SI";
  observacion = "Confirmar mora por crédito";
}

abbrev early : Verdict
early = record {
  dias_mora = 0;
  estado = "ADELANTADO";
  validar = "SI";
  observacion = "Pago adelantado; requiere reprogramación";
}

abbrev on_time : Option ℤ → Verdict
on_time none = manual
on_time (some z) = record {
  dias_mora = 0;
  estado = "NORMAL";
  validar = "SI";
  observacion = "Listo para validar";
}

unfoldable pub classify : ℕ → Option ℕ → Option ℤ → Verdict
classify paid none value = manual
classify paid (some due) value =
    if ltb due paid then late (paid - due) else if ltb paid due then early else on_time value

-- `f"{cur} | {obs_extra}" if cur else obs_extra`; no remark of a verdict is empty.
abbrev pub with_extra : String → String → String
with_extra cur extra = if extra == "" then cur else cur +++ " | " +++ extra

module _ (isoformat : ℕ → String) where
  abbrev pub date_cell : Option ℕ → Value
  date_cell none = text ""
  date_cell (some d) = text (isoformat d)

  -- The line, with `{}` for the keys that no rule changes in their order.
  unfoldable pub distribution_row : Payment → Candidate → Dict
  unfolding classify
  distribution_row p c =
      let v = classify p.fecha_banco c.fecha_limite c.valor_extracto in
      entry id_pago_col (text p.id_pago) (
        entry "Cliente" (text p.cliente) (
          entry monto_banco_col (money p.monto_banco) (
            entry "Crédito" (text c.credito) (
              entry "Fecha banco" (text (isoformat p.fecha_banco)) (
                entry "Fecha límite" (date_cell c.fecha_limite) (
                  entry "Días mora" (num v.dias_mora) (
                    entry "Valor extracto" (amount_cell c.valor_extracto) (
                      entry "Aplicar a extracto" (text "") (
                        entry "Mora a aplicar" (text "") (
                          entry "Otros valores" (text "") (
                            entry "Total aplicado" (text "") (
                              entry "Saldo por asignar" (text "") (
                                entry estado_pago_col (text v.estado) (
                                  entry validar_pago_col (text v.validar) (
                                    entry observacion_col
                                      (text (with_extra v.observacion c.observacion_extra))
                                      (entry "Link extracto" (text c.link_extracto) (
                                        entry "Link tabla amortización" (text c.link_tabla) (
                                          entry "Link carpeta crédito" (text c.link_carpeta_credito)
                                            (entry "Ruta" (text c.ruta_extracto_pdf) (
                                              entry "RutaUnidadCredito" (text c.ruta_unidad_credito)
                                                (entry "RutaTablaAmortizacion"
                                                  (text c.ruta_tabla_amortizacion)
                                                  (entry "CreditoNormalizado"
                                                    (text c.credito_normalizado)
                                                    empty))))))))))))))))))))))

  unfoldable pub build_distribution_rows : Payment → List Candidate → List Dict
  unfolding distribution_row
  build_distribution_rows p [] = []
  build_distribution_rows p (c ∷ cs) = distribution_row p c ∷ build_distribution_rows p cs

  -- The remarks of the lines, each once, in their order.
  unfoldable pub remarks : List Dict → List String → List String
  remarks [] seen = seen
  remarks (row ∷ rows) seen =
      let o = text_of (lookup observacion_col row) in
      remarks rows (if o == "" || member o seen then seen else seen ++ o ∷ [])

  unfoldable pub join : String → List String → String
  join sep [] = ""
  join sep (t ∷ []) = t
  join sep (t ∷ u ∷ ts) = t +++ sep +++ join sep (u ∷ ts)

  unfoldable pub build_case_row : Payment → List Dict → Dict
  unfolding remarks join
  build_case_row p rows = entry id_pago_col (text p.id_pago) (
      entry "Fecha banco" (text (isoformat p.fecha_banco)) (
        entry "Cliente" (text p.cliente) (
          entry "Concepto banco" (text p.concepto) (
            entry monto_banco_col (money p.monto_banco)
              (entry observacion_col (text (join " | " (remarks rows []))) empty)))))

-- `_apply_distrib_monto_only_leading_rows`: the amount of the bank stays on the first line of a payment.
abbrev pid_text : Option Value → String
pid_text none = ""
pid_text (some null) = ""
pid_text (some v) = strip (str_of v)

abbrev pub pid_of : Dict → String
pid_of row = pid_text (lookup id_pago_col row)

unfoldable pub leading_from : List String → List Dict → List Dict
unfolding str_of strip
leading_from seen [] = []
leading_from seen (row ∷ rows) =
    if pid_of row == ""
    then row ∷ leading_from seen rows
    else if member (pid_of row) seen
    then insert monto_banco_col null row ∷ leading_from seen rows
    else row ∷ leading_from (pid_of row ∷ seen) rows

unfoldable pub monto_only_leading_rows : List Dict → List Dict
unfolding leading_from
monto_only_leading_rows = leading_from []

-- `count_estado` of `_build_resumen_metrics`
unfoldable pub count_estado : String → List Dict → ℕ
count_estado estado [] = 0
count_estado estado (row ∷ rows) =
    let rest = count_estado estado rows in
    if is_text (lookup estado_pago_col row) estado then suc rest else rest

unfoldable pub resumen_metrics : List Dict → List Dict → List Dict → List (String × ℕ)
unfolding count_estado
resumen_metrics cases rows errors =
    ("Pagos banco", length cases + length errors)
    ∷ ("Casos pago", length cases)
    ∷ ("Líneas distribución", length rows)
    ∷ ("Errores", length errors)
    ∷ ("Atrasado (mora)", count_estado "ATRASADO" rows)
    ∷ ("Adelantado", count_estado "ADELANTADO" rows)
    ∷ ("Normal", count_estado "NORMAL" rows)
    ∷ ("Incompleto", count_estado "INCOMPLETO" rows)
    ∷ ("Revisión manual", count_estado "REVISION_MANUAL" rows)
    ∷ []
