-- ===== src/Finalize/Noted.antt =====
-- What the audit of finalize writes on a line, and what a check that passes says
-- (app/application/use_cases/payment_validation_finalize.py).
use automitizacion_hbi_capit.Base.{◌≡◌, refl, ap, Bool, true, false, some, if◌then◌else◌, ◌==◌}
use automitizacion_hbi_capit.Base.Texts.{strip, upper}
use automitizacion_hbi_capit.Json.{money, Dict}
use automitizacion_hbi_capit.Json.Ops.{lookup, lookup-insert}
use automitizacion_hbi_capit.Effects.{Exn, Result, ok, raised}
use automitizacion_hbi_capit.Review.{
  id_pago_col, estado_pago_col, validar_pago_col, aplicar_a_extracto_col, mora_a_aplicar_col,
  otros_valores_col, total_aplicado_col, observacion_col, is_validar_pago_si,
  normalize_validar_pago,
}
use automitizacion_hbi_capit.Finalize.{
  estado_of, str_or_empty, then_do, include_in_validation_outputs,
}
use automitizacion_hbi_capit.Finalize.Lines.{counts, total_of, noted}

-- A sequence that succeeds has succeeded at its first part.
pub then_do-ok {ℓ κ} :
    {A : Type ℓ} {B : Type κ} (r : Result A) (f : A → Result B) (b : B)
    → then_do r f ≡ ok b
    → (a : A) × (r ≡ ok a) × (f a ≡ ok b)
then_do-ok (ok a) f b h = (a, refl, h)
then_do-ok (raised e) f b h = cc

-- A guard that lets pass.
pub guard-ok {ℓ} :
    {A : Type ℓ} (t : Bool) (e : Exn) (k : Result A) (a : A)
    → (if t then raised e else k) ≡ ok a
    → (t ≡ false) × (k ≡ ok a)
guard-ok true e k a h = cc
guard-ok false e k a h = (refl, h)

-- What the audit writes on a line leaves its other columns.
pub noted-estado : (dist : Dict) → lookup estado_pago_col (noted dist) ≡ lookup estado_pago_col dist
unfolding noted
noted-estado dist = simp lookup-insert

pub noted-validar :
    (dist : Dict) → lookup validar_pago_col (noted dist) ≡ lookup validar_pago_col dist
unfolding noted
noted-validar dist = simp lookup-insert

pub noted-total : (dist : Dict) → lookup "total_f" (noted dist) ≡ some (money (total_of dist))
unfolding noted
noted-total dist = simp lookup-insert

pub noted-aplicado :
    (dist : Dict) → lookup total_aplicado_col (noted dist) ≡ some (money (total_of dist))
unfolding noted
noted-aplicado dist = simp lookup-insert

pub noted-extracto :
    (dist : Dict) → lookup aplicar_a_extracto_col (noted dist) ≡ lookup aplicar_a_extracto_col dist
unfolding noted
noted-extracto dist = simp lookup-insert

pub noted-mora :
    (dist : Dict) → lookup mora_a_aplicar_col (noted dist) ≡ lookup mora_a_aplicar_col dist
unfolding noted
noted-mora dist = simp lookup-insert

pub noted-otros :
    (dist : Dict) → lookup otros_valores_col (noted dist) ≡ lookup otros_valores_col dist
unfolding noted
noted-otros dist = simp lookup-insert

pub noted-observacion :
    (dist : Dict) → lookup observacion_col (noted dist) ≡ lookup observacion_col dist
unfolding noted
noted-observacion dist = simp lookup-insert

pub noted-id : (dist : Dict) → lookup id_pago_col (noted dist) ≡ lookup id_pago_col dist
unfolding noted
noted-id dist = simp lookup-insert

pub estado_of-noted : (dist : Dict) → estado_of (noted dist) ≡ estado_of dist
unfolding estado_of
estado_of-noted dist = ap (λ o. upper (strip (str_or_empty o))) (noted-estado dist)

pub is_validar-noted : (dist : Dict) → is_validar_pago_si (noted dist) ≡ is_validar_pago_si dist
unfolding is_validar_pago_si
is_validar-noted dist = ap (λ o. normalize_validar_pago o == "SI") (noted-validar dist)

pub include-noted :
    (dist : Dict)
    → include_in_validation_outputs (noted dist) ≡ counts (estado_of dist) (is_validar_pago_si dist)
unfolding include_in_validation_outputs
include-noted dist = rw (estado_of-noted dist, is_validar-noted dist) refl

pub total_of-noted : (dist : Dict) → total_of (noted dist) ≡ total_of dist
unfolding total_of
total_of-noted dist = rw (noted-extracto dist, noted-mora dist, noted-otros dist) refl
