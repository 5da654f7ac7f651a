-- ===== src/Distribution/States.antt =====
-- What the generated lines of a payment say (app/application/use_cases/payment_validation_generate.py,
-- read with app/application/services/review_schema.py, by which finalize reads them back).
use automitizacion_hbi_capit.Base.{
  ℕ, suc, ◌+◌, String, ◌≡◌, refl, ap, ◌∙◌, Bool, true, false, Option, none, some, List, [], ◌∷◌,
  length, if◌then◌else◌, arith, member, ltb,
}
use automitizacion_hbi_capit.Base.Signed.{ℤ}
use automitizacion_hbi_capit.Json.{text, Dict}
use automitizacion_hbi_capit.Json.Ops.{lookup}
use automitizacion_hbi_capit.Base.{all_members}
use automitizacion_hbi_capit.Review.{
  estado_pago_col, validar_pago_col, allowed_estados, apply_legacy_estado_migration,
}
use automitizacion_hbi_capit.Review.Migration.{IsCanonical, canonical-fixed}
use automitizacion_hbi_capit.Distribution.{
  Payment, Candidate, Verdict, on_time, classify, distribution_row, build_distribution_rows,
  count_estado,
}

-- The states that a verdict may have.
abbrev IsWritten : Verdict → Type 0
IsWritten v =
    (member v.estado allowed_estados ≡ true) × (member v.validar ("SI" ∷ "NO" ∷ []) ≡ true)

if-IsWritten :
    (b : Bool) (v w : Verdict) → IsWritten v → IsWritten w → IsWritten (if b then v else w)
if-IsWritten true v w hv hw = hv
if-IsWritten false v w hv hw = hw

on_time-IsWritten : (value : Option ℤ) → IsWritten (on_time value)
on_time-IsWritten none = (refl, refl)
on_time-IsWritten (some z) = (refl, refl)

classify-IsWritten :
    (paid : ℕ) (due : Option ℕ) (value : Option ℤ) → IsWritten (classify paid due value)
unfolding classify
classify-IsWritten paid none value = (refl, refl)
classify-IsWritten paid (some due) value =
    if-IsWritten (ltb due paid) _ _ (refl, refl)
      (if-IsWritten (ltb paid due) _ _ (refl, refl) (on_time-IsWritten value))

-- Every line of a list of them.
abbrev pub Each : (Dict → Type 0) → List Dict → Type 0
Each P [] = Unit {0}
Each P (row ∷ rows) = P row × Each P rows

-- The numbers of the five states in the metrics.
abbrev pub states_counted : List Dict → ℕ
states_counted rows =
    count_estado "ATRASADO" rows
    + count_estado "ADELANTADO" rows
    + count_estado "NORMAL" rows
    + count_estado "INCOMPLETO" rows
    + count_estado "REVISION_MANUAL" rows

module _ (isoformat : ℕ → String) (p : Payment) where
  state_cell :
      (c : Candidate)
      → lookup estado_pago_col (distribution_row isoformat p c)
        ≡ some (text (classify p.fecha_banco c.fecha_limite c.valor_extracto).estado)
  unfolding lookup distribution_row
  state_cell c = refl

  validar_cell :
      (c : Candidate)
      → lookup validar_pago_col (distribution_row isoformat p c)
        ≡ some (text (classify p.fecha_banco c.fecha_limite c.valor_extracto).validar)
  unfolding lookup distribution_row
  validar_cell c = refl

  row-IsCanonical : (c : Candidate) → IsCanonical (distribution_row isoformat p c)
  row-IsCanonical c =
      let w = classify-IsWritten p.fecha_banco c.fecha_limite c.valor_extracto in
      record {
        estado = (classify p.fecha_banco c.fecha_limite c.valor_extracto).estado;
        validar = (classify p.fecha_banco c.fecha_limite c.valor_extracto).validar;
        estado_allowed = w.0;
        validar_known = w.1;
        estado_cell = state_cell c;
        validar_cell = validar_cell c;
      }

  rows-IsCanonical :
      (cs : List Candidate) → Each IsCanonical (build_distribution_rows isoformat p cs)
  unfolding build_distribution_rows
  rows-IsCanonical [] = tt
  rows-IsCanonical (c ∷ cs) = (row-IsCanonical c, rows-IsCanonical cs)

  length-rows : (cs : List Candidate) → length (build_distribution_rows isoformat p cs) ≡ length cs
  unfolding build_distribution_rows
  length-rows [] = refl
  length-rows (c ∷ cs) = ap suc (length-rows cs)

-- The migration by which finalize reads old workbooks changes no column of such lines.
abbrev pub AreFixed : List Dict → Type 0
AreFixed rows =
    Each
      (λ row.
        IsCanonical row
        × ((k : String) → lookup k (apply_legacy_estado_migration row) ≡ lookup k row))
      rows

canonical-AreFixed : (rows : List Dict) → Each IsCanonical rows → AreFixed rows
canonical-AreFixed [] h = tt
canonical-AreFixed (row ∷ rows) h = ((h.0, canonical-fixed row h.0), canonical-AreFixed rows h.1)

count-step :
    (e : String)
    → member e allowed_estados ≡ true
    → (row : Dict) (rows : List Dict) → lookup estado_pago_col row ≡ some (text e)
    → states_counted (row ∷ rows) ≡ suc (states_counted rows)
unfolding count_estado
count-step =
    all_members
      (λ e.
        (row : Dict) (rows : List Dict)
        → lookup estado_pago_col row ≡ some (text e)
        → states_counted (row ∷ rows) ≡ suc (states_counted rows))
      allowed_estados
      (
        (λ row rows h. rw h (omega arith)),
        (
          (λ row rows h. rw h (omega arith)),
          (
            (λ row rows h. rw h (omega arith)),
            ((λ row rows h. rw h (omega arith)), ((λ row rows h. rw h (omega arith)), tt)),
          ),
        ),
      )

states_counted-length :
    (rows : List Dict) → Each IsCanonical rows → states_counted rows ≡ length rows
unfolding count_estado
states_counted-length [] h = refl
states_counted-length (row ∷ rows) h =
    count-step h.0.estado h.0.estado_allowed row rows h.0.estado_cell
    ∙ ap suc (states_counted-length rows h.1)

-- There is one line for each extract of a payment; every line has one of the states and SI or NO, and
-- the migration by which finalize reads old workbooks changes no column of it; and the numbers of the
-- five states, as the metrics count them, add up to the number of the extracts.
pub build_distribution_rows-AreFixed :
    (isoformat : ℕ → String) (p : Payment) (cs : List Candidate)
    → let rows = build_distribution_rows isoformat p cs in
      AreFixed rows × (length rows ≡ length cs) × (states_counted rows ≡ length cs)
build_distribution_rows-AreFixed isoformat p cs =
    let c = rows-IsCanonical isoformat p cs in
    let n = length-rows isoformat p cs in (canonical-AreFixed _ c, n, states_counted-length _ c ∙ n)
