-- ===== src/Finalize/Checks.antt =====
-- What each check of a line says once it passes, in the audit of finalize
-- (app/application/use_cases/payment_validation_finalize.py).
use automitizacion_hbi_capit.Base.{
  and-false, not-true, String, ◌≡◌, sym, ◌∙◌, Bool, true, false, not, ◌&&◌, ◌||◌, some, ◌==◌,
  member,
}
use automitizacion_hbi_capit.Json.{money, Dict}
use automitizacion_hbi_capit.Json.Ops.{lookup}
use automitizacion_hbi_capit.Effects.{ok}
use automitizacion_hbi_capit.Review.{
  aplicar_a_extracto_col, mora_a_aplicar_col, otros_valores_col, total_aplicado_col,
  observacion_col, allowed_estados, finalize_forbidden, counters_positive_total, cell_text,
  is_validar_pago_si,
}
use automitizacion_hbi_capit.Finalize.{
  estado_of, accounting_cell_filled, include_in_validation_outputs,
}
use automitizacion_hbi_capit.Finalize.Lines.{
  check_estado, check_cells, counts, total_of, noted, is_positive, settle,
}
use automitizacion_hbi_capit.Finalize.Noted.{
  guard-ok, noted-extracto, noted-mora, noted-otros, total_of-noted,
}

-- What a line that counts has: its three cells, and a positive total.
abbrev pub IsPayable : Dict → Type 0
IsPayable line =
    (accounting_cell_filled (lookup aplicar_a_extracto_col line) ≡ true)
    × (accounting_cell_filled (lookup mora_a_aplicar_col line) ≡ true)
    × (accounting_cell_filled (lookup otros_valores_col line) ≡ true)
    × (is_positive (total_of line) ≡ true)

-- A line that finalize may go on with.
abbrev pub IsAudited : Dict → Type 0
IsAudited line =
    (member (estado_of line) allowed_estados ≡ true)
    × (member (estado_of line) finalize_forbidden ≡ false)
    × (include_in_validation_outputs line ≡ true → IsPayable line)
    × (((estado_of line == "NORMAL" || estado_of line == "INCOMPLETO")
            && not (is_validar_pago_si line))
          ≡ true
        → (cell_text (lookup observacion_col line) == "") ≡ false)
    × (lookup total_aplicado_col line ≡ some (money (total_of line)))

pub estado-allowed :
    (e : String)
    → check_estado e ≡ ok tt
    → (member e allowed_estados ≡ true) × (member e finalize_forbidden ≡ false)
unfolding check_estado
estado-allowed e h =
    let a = guard-ok (e == "" || e == "NONE") _ _ tt h in
    let b = guard-ok (not (member e allowed_estados)) _ _ tt a.1 in
    let c = guard-ok (member e finalize_forbidden) _ _ tt b.1 in (not-true _ b.0, c.0)

pub cells-filled :
    (dist : Dict)
    → check_cells true dist ≡ ok tt
    → (accounting_cell_filled (lookup aplicar_a_extracto_col dist) ≡ true)
      × (accounting_cell_filled (lookup mora_a_aplicar_col dist) ≡ true)
      × (accounting_cell_filled (lookup otros_valores_col dist) ≡ true)
unfolding check_cells
cells-filled dist h =
    let a = guard-ok (not (accounting_cell_filled (lookup aplicar_a_extracto_col dist))) _ _ tt h in
    let b = guard-ok (not (accounting_cell_filled (lookup mora_a_aplicar_col dist))) _ _ tt a.1 in
    let c = guard-ok (not (accounting_cell_filled (lookup otros_valores_col dist))) _ _ tt b.1 in
    (not-true _ a.0, not-true _ b.0, not-true _ c.0)

-- The first branch of `settle` is never that of a line that counts.
pub settle-positive :
    (e : String) (vp : Bool) (dist sums sums' : Dict)
    → settle e vp dist sums ≡ ok sums'
    → counts e vp ≡ true
    → is_positive (total_of dist) ≡ true
unfolding settle
settle-positive e true dist sums sums' h c =
    not-true _
      (guard-ok (not (is_positive (total_of dist))) _ _ sums'
        (rw (and-false (e == "NORMAL" || e == "INCOMPLETO"), c) at h)).0
settle-positive e false dist sums sums' h c =
    let n = sym (and-false (member e counters_positive_total)) ∙ c in cc

pub settle-observed :
    (e : String) (vp : Bool) (dist sums sums' : Dict)
    → settle e vp dist sums ≡ ok sums'
    → ((e == "NORMAL" || e == "INCOMPLETO") && not vp) ≡ true
    → (cell_text (lookup observacion_col dist) == "") ≡ false
unfolding settle
settle-observed e vp dist sums sums' h c =
    (guard-ok (cell_text (lookup observacion_col dist) == "") _ _ sums' (rw c at h)).0

pub payable :
    (dist sums sums' : Dict) (e : String) (vp : Bool)
    → check_cells (counts e vp) dist ≡ ok tt
    → settle e vp dist sums ≡ ok sums'
    → counts e vp ≡ true
    → IsPayable dist
payable dist sums sums' e vp hc hs c =
    let f = cells-filled dist (rw c at hc) in
    (f.0, f.1, f.2, settle-positive e vp dist sums sums' hs c)

pub IsPayable-noted : (dist : Dict) → IsPayable dist → IsPayable (noted dist)
IsPayable-noted dist h =
    rw (noted-extracto dist, noted-mora dist, noted-otros dist, total_of-noted dist) h
