-- ===== src/Review.antt =====
-- app/application/services/review_schema.py: the columns of the review workbook that the code reads,
-- the states of a payment line, and how old workbooks are brought to them. A cell holds a text, a
-- truth value, a number, an amount or nothing.
pub mod Migration
use Prim.Native.String.{slice, ◌++◌ as ◌+++◌}
use automitizacion_hbi_capit.Base.{
  ℕ, zero, suc, ◌+◌, ◌-◌, ◌*◌, ◌/◌, ◌%◌, ◌≤◌, ◌<◌, String, ◌≡◌, ◌≢◌, refl, sym, ap, ◌∙◌, ◌↔◌, ◌⊎◌,
  inl, inr, Bool, true, false, not, ◌&&◌, ◌||◌, Option, none, some, List, [], ◌∷◌, ◌++◌, map,
  length, length-append, if◌then◌else◌, ◌==◌, eq_iff, eq_refl, eq→≡, arith, member, Bool-cases,
  Option-cases, ltb, leb, eqb, or_else, ltb→lt, lt→ltb, leb→le, le→leb, eq-false_of_ne,
}
use automitizacion_hbi_capit.Base.Signed.{ℤ, pos, negsuc, ◌+ℤ◌, ◌-ℤ◌, ltb_ℤ}
use automitizacion_hbi_capit.Base.Texts.{strip, upper, lower}
use automitizacion_hbi_capit.Json.{
  Value, null, bool, num, money, text, iso, arr, obj, Items, nil, cons, Dict, empty, entry, holds,
  truthy, text_of, is_text,
}
use automitizacion_hbi_capit.Json.Ops.{
  lookup, is_unique, update, insert, delete, contains, set_default, lookup-insert, lookup-delete,
  lookup-update_unique, dict_laws,
}
use automitizacion_hbi_capit.Effects.{
  Exn, skipped, error, Result, ok, raised, Act, pure, raise, ◌>>=◌, ◌>>◌, attempt, reraise, gets,
  bind_rule, bind_from,
}

-- Column names of `DistribucionCols`.
abbrev pub id_pago_col : String
id_pago_col = "ID Pago"

abbrev pub estado_pago_col : String
estado_pago_col = "Estado Pago"

abbrev pub validar_pago_col : String
validar_pago_col = "Validar Pago"

abbrev pub monto_banco_col : String
monto_banco_col = "Monto banco"

abbrev pub aplicar_a_extracto_col : String
aplicar_a_extracto_col = "Aplicar a extracto"

abbrev pub mora_a_aplicar_col : String
mora_a_aplicar_col = "Mora a aplicar"

abbrev pub otros_valores_col : String
otros_valores_col = "Otros valores"

abbrev pub total_aplicado_col : String
total_aplicado_col = "Total aplicado"

abbrev pub observacion_col : String
observacion_col = "Observación"

-- `EstadoPago.ALLOWED`
abbrev pub allowed_estados : List String
allowed_estados = "ADELANTADO" ∷ "ATRASADO" ∷ "INCOMPLETO" ∷ "NORMAL" ∷ "REVISION_MANUAL" ∷ []

abbrev pub finalize_forbidden : List String
finalize_forbidden = "REVISION_MANUAL" ∷ []

-- `COUNTERS_POSITIVE_TOTAL`, `SECRETARY_AND_RUTA` and `CLEARS_PENDING`
abbrev pub counters_positive_total : List String
counters_positive_total = "NORMAL" ∷ "INCOMPLETO" ∷ "ATRASADO" ∷ "ADELANTADO" ∷ []

-- The decimal digits of a number, on the number as fuel.
unfoldable digits_from : ℕ → ℕ → String → String
digits_from zero n s = s
digits_from (suc fuel) n s =
    let t = slice "0123456789" (n % 10) (n % 10 + 1) +++ s in
    let rest = digits_from fuel (n / 10) t in if ltb n 10 then t else rest

unfoldable pub digits : ℕ → String
unfolding digits_from
digits n = digits_from (suc n) n ""

-- The two decimals of an amount as Python prints a number: the second only where it is not zero.
abbrev decimals : ℕ → String
decimals m =
    if eqb (m % 10) 0 then digits (m / 10) else if ltb m 10 then "0" +++ digits m else digits m

-- `str` of an amount, in the range that Python prints without an exponent.
unfoldable money_text : ℤ → String
unfolding digits
money_text (pos n) = digits (n / 100) +++ "." +++ decimals (n % 100)
money_text (negsuc n) = "-" +++ digits ((n + 1) / 100) +++ "." +++ decimals ((n + 1) % 100)

-- `str(v)`; the other values stand in no cell.
unfoldable pub str_of : Value → String
unfolding digits money_text
str_of null = "None"
str_of (bool b) = if b then "True" else "False"
str_of (num n) = digits n
str_of (money z) = money_text z
str_of (text t) = t
str_of _ = ""

-- `str(v or "").strip()`
unfoldable pub cell_text : Option Value → String
unfolding str_of strip
cell_text none = ""
cell_text (some v) = if truthy v then strip (str_of v) else ""

-- `_normalize_validar_pago_raw`
unfoldable pub normalize_validar_pago : Option Value → String
unfolding cell_text upper
normalize_validar_pago raw =
    let s = upper (cell_text raw) in
    if member s ("SI" ∷ "SÍ" ∷ "YES" ∷ "TRUE" ∷ "1" ∷ "Y" ∷ [])
    then "SI"
    else if member s ("NO" ∷ "N" ∷ "FALSE" ∷ "0" ∷ [])
    then "NO"
    else ""

unfoldable pub is_validar_pago_si : Dict → Bool
unfolding normalize_validar_pago
is_validar_pago_si row = normalize_validar_pago (lookup validar_pago_col row) == "SI"

-- `_LEGACY_ESTADO_TO_PAIR`
unfoldable pub legacy_estado_to_pair : String → Option (String × String)
legacy_estado_to_pair token =
    if token == "VALIDAR"
    then some ("NORMAL", "SI")
    else if token == "VALIDAR_PARCIAL"
    then some ("INCOMPLETO", "SI")
    else if token == "REPROGRAMAR"
    then some ("ADELANTADO", "SI")
    else if token == "NO_VALIDAR"
    then some ("NORMAL", "NO")
    else if token == "PENDIENTE_MORA"
    then some ("ATRASADO", "SI")
    else if token == "REVISION_MANUAL"
    then some ("REVISION_MANUAL", "NO")
    else none

abbrev pub with_pair : String → String → Dict → Dict
with_pair estado validar row =
    insert validar_pago_col (text validar) (insert estado_pago_col (text estado) row)

abbrev or_no : String → String
or_no vp = if vp == "" then "NO" else vp

-- The rest of the migration, where the token is not an `EstadoPago`.
abbrev pub migrate_by : Option (String × String) → String → String → Dict → Dict
migrate_by (some (estado, validar)) raw vp row = with_pair estado validar row
migrate_by none raw vp row =
    let named = insert estado_pago_col (text raw) row in
    if vp == "" then insert validar_pago_col (text "NO") named else named

unfoldable pub apply_legacy_estado_migration : Dict → Dict
unfolding cell_text normalize_validar_pago legacy_estado_to_pair upper
apply_legacy_estado_migration row =
    let raw = cell_text (lookup estado_pago_col row) in
    let token = upper raw in
    let vp = normalize_validar_pago (lookup validar_pago_col row) in
    if member token allowed_estados
    then with_pair token (or_no vp) row
    else migrate_by (legacy_estado_to_pair token) raw vp row

-- `DISTRIB_LEGACY_HEADER_ALIASES`, in its order.
abbrev pub legacy_headers : List (String × String)
legacy_headers =
    ("Valor intereses", aplicar_a_extracto_col)
    ∷ ("Abono a K", mora_a_aplicar_col)
    ∷ ("Intereses de mora", otros_valores_col)
    ∷ ("Estado línea", estado_pago_col)
    ∷ ("Estado", estado_pago_col)
    ∷ []

-- `if legacy in out and canonical not in out: out[canonical] = out[legacy]`
abbrev pub alias_from : Option Value → String → Dict → Dict
alias_from none canonical out = out
alias_from (some v) canonical out = if contains canonical out then out else insert canonical v out

unfoldable pub rekey : List (String × String) → Dict → Dict
unfolding contains
rekey [] out = out
rekey ((legacy, canonical) ∷ aliases) out =
    rekey aliases (alias_from (lookup legacy out) canonical out)

unfoldable pub normalize_distrib_row_keys : Dict → Dict
unfolding rekey
normalize_distrib_row_keys row = rekey legacy_headers row
