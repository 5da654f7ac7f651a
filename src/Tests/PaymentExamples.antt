-- ===== src/Tests/PaymentExamples.antt =====
-- The theorems on the review of payments at a concrete workbook.
use automitizacion_hbi_capit.Base.{
  ℕ, ◌≤◌, String, ◌≡◌, refl, false, Option, none, some, List, [], ◌∷◌, length, if◌then◌else◌, ◌==◌,
  or_else,
}
use automitizacion_hbi_capit.Base.Signed.{pos, ◌+ℤ◌, ◌-ℤ◌}
use automitizacion_hbi_capit.Base.Texts.{strip, upper}
use automitizacion_hbi_capit.Json.{Value, num, money, text, Dict, empty, entry}
use automitizacion_hbi_capit.Json.Ops.{lookup}
use automitizacion_hbi_capit.Effects.{Result, ok, raised, Act, pure}
use automitizacion_hbi_capit.Tests.Drive.{Files, memory, memory-IsDrive}
use automitizacion_hbi_capit.Finalize.{include_in_validation_outputs}
use automitizacion_hbi_capit.Finalize.Run.{finalize}
use automitizacion_hbi_capit.Finalize.Stored.{Finished, finalize-Finished}
use automitizacion_hbi_capit.Review.{
  digits, cell_text, legacy_estado_to_pair, apply_legacy_estado_migration,
}
use automitizacion_hbi_capit.Review.{estado_pago_col, monto_banco_col, id_pago_col}
use automitizacion_hbi_capit.Review.Migration.{
  IsCanonical, apply_legacy_estado_migration-IsCanonical,
}
use automitizacion_hbi_capit.Distribution.{
  Payment, Candidate, build_distribution_rows, monto_only_leading_rows,
}
use automitizacion_hbi_capit.Distribution.States.{
  AreFixed, states_counted, build_distribution_rows-AreFixed,
}
use automitizacion_hbi_capit.Distribution.Amounts.{
  monto_only_leading_rows-first_kept, cells, column, first_kept,
}
use automitizacion_hbi_capit.Sheets.{Sheet}
use automitizacion_hbi_capit.Finalize.{Workbook, montos_of}
use automitizacion_hbi_capit.Finalize.Lines.{audit, Books, cents, abs}
use automitizacion_hbi_capit.Finalize.Audit.{AllLines, audit-IsAudited}
use automitizacion_hbi_capit.Finalize.Books.{any_of, applied, first_monto}
use automitizacion_hbi_capit.Finalize.Balance.{audit-balanced}

abbrev old_line : Dict
old_line = entry id_pago_col (text "P1") (entry estado_pago_col (text " validar_parcial ") empty)

apply_legacy_estado_migration-IsCanonical_example :
    let line = apply_legacy_estado_migration old_line in
    IsCanonical line
    × ((k : String) → lookup k (apply_legacy_estado_migration line) ≡ lookup k line)
unfolding lookup cell_text strip upper legacy_estado_to_pair
apply_legacy_estado_migration-IsCanonical_example =
    apply_legacy_estado_migration-IsCanonical old_line refl

abbrev payment : Payment
payment = record {
  id_pago = "P1";
  cliente = "ACME";
  concepto = "abono";
  fecha_banco = 20;
  monto_banco = pos 15000;
}

abbrev candidate : Option ℕ → Candidate
candidate due = record {
  credito = "544";
  fecha_limite = due;
  valor_extracto = some (pos 15000);
  link_extracto = "";
  link_tabla = "";
  link_carpeta_credito = "";
  ruta_extracto_pdf = "";
  ruta_unidad_credito = "";
  ruta_tabla_amortizacion = "";
  credito_normalizado = "544";
  observacion_extra = "";
}

abbrev candidates : List Candidate
candidates = candidate (some 15) ∷ candidate none ∷ []

build_distribution_rows-AreFixed_example :
    let rows = build_distribution_rows digits payment candidates in
    AreFixed rows × (length rows ≡ 2) × (states_counted rows ≡ 2)
build_distribution_rows-AreFixed_example =
    build_distribution_rows-AreFixed digits payment candidates

abbrev two_lines : List Dict
two_lines =
    entry id_pago_col (text "P1") (entry monto_banco_col (money (pos 1000)) empty)
    ∷ entry id_pago_col (text "P1") (entry monto_banco_col (money (pos 1000)) empty)
    ∷ []

monto_only_leading_rows-first_kept_example :
    ((k : String)
      → (k == "") ≡ false
      → cells k (monto_only_leading_rows two_lines) ≡ first_kept (cells k two_lines))
    × ((j : String)
        → (monto_banco_col == j) ≡ false
        → column j (monto_only_leading_rows two_lines) ≡ column j two_lines)
monto_only_leading_rows-first_kept_example = monto_only_leading_rows-first_kept two_lines

-- A workbook with a payment of 150.00 on one line.
abbrev pub control_sheet : Sheet
control_sheet =
    (text "Campo" ∷ text "Valor" ∷ [])
    ∷ (text "Estado" ∷ text "EN_REVISION" ∷ [])
    ∷ (text "Procesar" ∷ text "si" ∷ [])
    ∷ []

abbrev casos_sheet : Sheet
casos_sheet = (text "ID Pago" ∷ text "Monto banco" ∷ []) ∷ (text "P1" ∷ num 150 ∷ []) ∷ []

abbrev distribucion_sheet : Value → Sheet
distribucion_sheet estado =
    (text "ID Pago"
      ∷ text "Estado Pago"
      ∷ text "Validar Pago"
      ∷ text "Aplicar a extracto"
      ∷ text "Mora a aplicar"
      ∷ text "Otros valores"
      ∷ [])
    ∷ (text "P1" ∷ estado ∷ text "SI" ∷ text "100,50" ∷ money (pos 4950) ∷ num 0 ∷ [])
    ∷ []

abbrev pub review : Value → Workbook
review estado = record {
  control = some control_sheet;
  casos_pago = some casos_sheet;
  distribucion = some (distribucion_sheet estado);
}

abbrev passed : {A : Type 0} → A → Result A → A
passed a (ok b) = b
passed a (raised e) = a

abbrev audited : Books × List Dict
audited = passed ((empty, empty), []) (audit (review (text "NORMAL")))

audit-IsAudited_example : AllLines audited.1
unfolding audit ◌+ℤ◌
audit-IsAudited_example = audit-IsAudited (review (text "NORMAL")) audited refl

abbrev montos : Dict
montos = passed empty (montos_of (some casos_sheet))

audit-balanced_example :
    abs (
      applied "P1" (pos 0) audited.1
      -ℤ cents (or_else (lookup "P1" montos) (first_monto "P1" audited.1)))
    ≤ 1
unfolding audit montos_of any_of ◌+ℤ◌ include_in_validation_outputs
audit-balanced_example = audit-balanced (review (text "NORMAL")) montos audited "P1" refl refl refl

-- Bytes of a file are the workbook itself, and the two outputs are what was read.
abbrev prepare : Workbook → List Dict → Act (Files Workbook) (Workbook × Workbook)
prepare raw lines = pure (raw, raw)

abbrev register : List Dict → String → Act (Files Workbook) (List String)
register lines hist = pure []

abbrev drive_with : Workbook → Files Workbook
drive_with wb p = if p == "r.xlsx" then some wb else none

finalize-Finished_example :
    Finished
      (λ s p. s p)
      (memory Workbook)
      (memory-IsDrive Workbook)
      (λ wb. wb)
      prepare
      register
      "r.xlsx"
      "h.xlsx"
      "s.xlsx"
      (drive_with (review (text "NORMAL")))
      (finalize
        (memory Workbook)
        (λ wb. wb)
        prepare
        register
        "r.xlsx"
        "h.xlsx"
        "s.xlsx"
        (drive_with (review (text "NORMAL"))))
finalize-Finished_example =
    finalize-Finished (λ s p. s p) (memory Workbook) (memory-IsDrive Workbook) (λ wb. wb) prepare
      register "r.xlsx" "h.xlsx" "s.xlsx" (drive_with (review (text "NORMAL"))) refl
