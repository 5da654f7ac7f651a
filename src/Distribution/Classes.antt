-- ===== src/Distribution/Classes.antt =====
-- How the two dates and the value of a line decide its state
-- (app/application/use_cases/payment_validation_generate.py).
use automitizacion_hbi_capit.Base.{
  ℕ, ◌-◌, ◌≡◌, Bool, true, false, not, Option, none, some, ◌==◌, ltb, eqb,
}
use automitizacion_hbi_capit.Base.Signed.{ℤ}
use automitizacion_hbi_capit.Distribution.{Verdict}

-- What the two dates and the value of a line say, each on its own.
abbrev pub is_late : ℕ → Option ℕ → Bool
is_late paid none = false
is_late paid (some due) = ltb due paid

abbrev pub is_early : ℕ → Option ℕ → Bool
is_early paid none = false
is_early paid (some due) = ltb paid due

-- The days by which a payment is late.
abbrev pub days_late : ℕ → Option ℕ → ℕ
days_late paid none = 0
days_late paid (some due) = paid - due

-- No date, or the very day and no value: a person has to look.
abbrev pub is_incomplete : ℕ → Option ℕ → Option ℤ → Bool
is_incomplete paid none value = true
is_incomplete paid (some due) none = eqb paid due
is_incomplete paid (some due) (some z) = false

abbrev Fits : ℕ → Option ℕ → Option ℤ → Verdict → Type 0
Fits paid due value v =
    ((v.estado == "ATRASADO") ≡ is_late paid due)
    × ((v.estado == "ADELANTADO") ≡ is_early paid due)
    × ((v.estado == "REVISION_MANUAL") ≡ is_incomplete paid due value)
    × ((v.validar == "SI") ≡ not (is_incomplete paid due value))
    × (v.dias_mora ≡ days_late paid due)
