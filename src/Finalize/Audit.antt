-- ===== src/Finalize/Audit.antt =====
-- What every line has that the audit of finalize passes
-- (app/application/use_cases/payment_validation_finalize.py).
use automitizacion_hbi_capit.Base.{ℕ, ◌≡◌, sym, ap, ◌∙◌, none, some, List, [], ◌∷◌, ◌==◌, member}
use automitizacion_hbi_capit.Json.{money, Dict, empty}
use automitizacion_hbi_capit.Json.Ops.{lookup}
use automitizacion_hbi_capit.Effects.{ok-injective, ok}
use automitizacion_hbi_capit.Review.{
  id_pago_col, allowed_estados, finalize_forbidden, cell_text, is_validar_pago_si,
}
use automitizacion_hbi_capit.Sheets.{read_table}
use automitizacion_hbi_capit.Finalize.{
  Workbook, Control, read_control, check_control, montos_of, estado_of, str_or_none,
}
use automitizacion_hbi_capit.Finalize.Lines.{
  check_estado, check_cells, counts, noted, Books, with_monto, settle, check_line, check_lines,
  audit_lines, audit, sheet_or, check_sums, dists_of,
}
use automitizacion_hbi_capit.Finalize.Noted.{
  then_do-ok, noted-aplicado, noted-observacion, estado_of-noted, is_validar-noted, include-noted,
  total_of-noted,
}
use automitizacion_hbi_capit.Finalize.Checks.{
  IsAudited, estado-allowed, settle-observed, payable, IsPayable-noted,
}

-- The line that a turn of the loop leaves.
pub check_line-noted :
    (books : Books) (dist : Dict) (r : Books × Dict)
    → check_line books dist ≡ ok r
    → (check_estado (estado_of dist) ≡ ok tt)
      × (check_cells (counts (estado_of dist) (is_validar_pago_si dist)) dist ≡ ok tt)
      × (settle (estado_of dist) (is_validar_pago_si dist) dist books.1 ≡ ok r.0.1)
      × (r.0.0 ≡ with_monto (str_or_none (lookup id_pago_col dist)) dist books.0)
      × (r.1 ≡ noted dist)
unfolding check_line
check_line-noted (montos, sums) dist r h =
    let a = then_do-ok (check_estado (estado_of dist)) _ r h in
    let b =
      then_do-ok (check_cells (counts (estado_of dist) (is_validar_pago_si dist)) dist) _ r a.2 in
    let c = then_do-ok (settle (estado_of dist) (is_validar_pago_si dist) dist sums) _ r b.2 in
    let e = ok-injective _ r c.2 in
    (a.1, b.1, c.1 ∙ ap (λ q. ok q.0.1) e, sym (ap (λ q. q.0.0) e), sym (ap (λ q. q.1) e))

noted-IsAudited :
    (dist sums sums' : Dict)
    → check_estado (estado_of dist) ≡ ok tt
    → check_cells (counts (estado_of dist) (is_validar_pago_si dist)) dist ≡ ok tt
    → settle (estado_of dist) (is_validar_pago_si dist) dist sums ≡ ok sums'
    → IsAudited (noted dist)
noted-IsAudited dist sums sums' a b c =
    let e = estado-allowed (estado_of dist) a in
    (
      ap (λ t. member t allowed_estados) (estado_of-noted dist) ∙ e.0,
      ap (λ t. member t finalize_forbidden) (estado_of-noted dist) ∙ e.1,
      (λ i. IsPayable-noted dist (
          payable dist sums sums' (estado_of dist) (is_validar_pago_si dist) b c
            (sym (include-noted dist) ∙ i))),
      (λ q.
          ap (λ o. cell_text o == "") (noted-observacion dist)
          ∙ settle-observed (estado_of dist) (is_validar_pago_si dist) dist sums sums' c
              (rw (estado_of-noted dist, is_validar-noted dist) at q)),
      noted-aplicado dist ∙ ap (λ z. some (money z)) (sym (total_of-noted dist)),
    )

-- What holds of every line.
abbrev pub AllLines : List Dict → Type 0
AllLines [] = Unit {0}
AllLines (line ∷ lines) = IsAudited line × AllLines lines

-- A run over the lines, taken apart at its first line.
pub check_lines-cons :
    (books : Books) (dist : Dict) (dists : List Dict) (r : Books × List Dict)
    → check_lines books (dist ∷ dists) ≡ ok r
    → (b : Books) × (lines : List Dict) × (check_line books dist ≡ ok (b, noted dist))
      × (check_lines b dists ≡ ok (r.0, lines))
      × (r.1 ≡ noted dist ∷ lines)
unfolding check_lines
check_lines-cons books dist dists r h =
    let a = then_do-ok (check_line books dist) _ r h in
    let b = then_do-ok (check_lines a.0.0 dists) _ r a.2 in
    let e = ok-injective _ r b.2 in
    let n = (check_line-noted books dist a.0 a.1).4 in
    (
      a.0.0,
      b.0.1,
      a.1 ∙ ap (λ l. ok (a.0.0, l)) n,
      b.1 ∙ ap (λ q. ok (q.0, b.0.1)) e,
      sym (ap (λ q. q.1) e) ∙ ap (λ l. l ∷ b.0.1) n,
    )

check_lines-AllLines :
    (books : Books) (dists : List Dict) (r : Books × List Dict)
    → check_lines books dists ≡ ok r
    → AllLines r.1
unfolding check_lines
check_lines-AllLines books [] r h = rw (sym (ap (λ q. q.1) (ok-injective _ r h))) tt
check_lines-AllLines books (dist ∷ dists) r h =
    let (b, lines, hl, hr, e) = check_lines-cons books dist dists r h in
    let (ce, cc', cs, m, n) = check_line-noted books dist (b, noted dist) hl in
    rw e (noted-IsAudited dist _ _ ce cc' cs, check_lines-AllLines b dists _ hr)

-- What a workbook has that the audit passes: its control sheet approves it, and its lines come from
-- a run of the two checks.
pub audit-parts :
    (wb : Workbook) (r : Books × List Dict)
    → audit wb ≡ ok r
    → (c : Control) × (montos : Dict) × (rows : List (ℕ × Dict)) × (check_control c ≡ ok tt)
      × (montos_of wb.casos_pago ≡ ok montos)
      × (check_lines (montos, empty) (dists_of rows) ≡ ok r)
      × (check_sums r.0.0 r.0.1 ≡ ok tt)
unfolding audit audit_lines
audit-parts wb r h =
    let a = then_do-ok (sheet_or "missing_control_sheet" wb.control) _ r h in
    let b = then_do-ok (sheet_or "missing_distribucion_sheet" wb.distribucion) _ r a.2 in
    let c = then_do-ok (read_control (record { procesar = none; estado = none }) a.0) _ r b.2 in
    let d = then_do-ok (check_control c.0) _ r c.2 in
    let e = then_do-ok (montos_of wb.casos_pago) _ r d.2 in
    let f = then_do-ok (read_table id_pago_col b.0) _ r e.2 in
    let g = then_do-ok (check_lines (e.0, empty) (dists_of f.0)) _ r f.2 in
    let i = then_do-ok (check_sums g.0.0.0 g.0.0.1) _ r g.2 in
    let q = ok-injective _ r i.2 in
    (
      c.0,
      e.0,
      f.0,
      d.1,
      e.1,
      g.1 ∙ ap (λ x. ok x) q,
      ap (λ x. check_sums x.0.0 x.0.1) (sym q) ∙ i.1,
    )

-- Every line of a workbook that the audit passes has one of the states and is not left to a person; a
-- line that counts has its three amounts and a positive total; one that is NORMAL or INCOMPLETO and is
-- not validated has a remark; and each carries its total.
pub audit-IsAudited : (wb : Workbook) (r : Books × List Dict) → audit wb ≡ ok r → AllLines r.1
audit-IsAudited wb r h =
    let (c, montos, rows, hc, hm, hl, hs) = audit-parts wb r h in
    check_lines-AllLines (montos, empty) (dists_of rows) r hl
