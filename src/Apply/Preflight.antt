-- ===== src/Apply/Preflight.antt =====
-- The warnings that an apply allows, and its preflight
-- (app/application/services/amortization_apply_safety.py and
-- app/application/use_cases/amortization_fill_apply.py). Amounts are whole cents, and the tolerance of
-- 0.02 is two of them.
use automitizacion_hbi_capit.Base.{
  ◌*◌, String, Bool, true, false, not, ◌&&◌, ◌||◌, some, List, [], ◌∷◌, if◌then◌else◌, ◌==◌, member,
  ltb,
}
use automitizacion_hbi_capit.Base.Signed.{ℤ, pos, ◌-ℤ◌, ltb_ℤ}
use automitizacion_hbi_capit.Base.Texts.{strip}
use automitizacion_hbi_capit.Json.{num, money, obj, Items, nil, cons, Dict, holds}
use automitizacion_hbi_capit.Json.Ops.{lookup}
use automitizacion_hbi_capit.Effects.{Exn, error, Result, ok, raised}
use automitizacion_hbi_capit.Review.{str_of}
use automitizacion_hbi_capit.Finalize.Lines.{abs}
use automitizacion_hbi_capit.Apply.{dict_field, list_field, count_field}

-- `float(d.get(k) or 0)` and `int(d.get(k) or 0)` of numbers
abbrev amount_field : String → Dict → ℤ
amount_field k d = elim (lookup k d) [
  | some (money z) ↦ z
  | some (num n) ↦ pos (n * 100)
  | _ ↦ pos 0
]

-- `[str(w).strip() for w in ... if str(w).strip()]`
unfoldable texts_in : Items → List String
unfolding str_of strip
texts_in nil = []
texts_in (cons v vs) =
    let t = strip (str_of v) in let rest = texts_in vs in if t == "" then rest else t ∷ rest

abbrev pub saldos_menores : String
saldos_menores = "544153159505"

abbrev pub capital : String
capital = "544113410519"

abbrev pub valor_pagado_cliente : String
valor_pagado_cliente = "544111100505"

abbrev pub bank_inferred : String
bank_inferred = "BANK_VALUE_INFERRED_OR_MISSING"

-- `detected - required` is not empty.
abbrev any_other : List String → Bool
any_other [] = false
any_other (c ∷ codes) = not (c == saldos_menores || c == capital) || any_other codes

abbrev not_positive : ℤ → Bool
not_positive z = not (ltb_ℤ (pos 0) z)

abbrev far : ℤ → ℤ → Bool
far a b = ltb 2 (abs (a -ℤ b))

-- What is asked of the item where it has a warning, whichever it is.
unfoldable pub is_small_balance : Dict → Bool
unfolding texts_in ◌-ℤ◌ lookup
is_small_balance item =
    let detected = texts_in (list_field "detected_codes" item) in
    let pa = dict_field "payment_application" item in
    let vp = amount_field "valor_pagado_cliente" pa in
    let saldos = amount_field "saldos_menores" pa in
    let cap = amount_field "capital" pa in
    if not (member saldos_menores detected && member capital detected)
    then false
    else if member valor_pagado_cliente detected
    then false
    else if not_positive vp || (not_positive saldos || not_positive cap)
    then false
    else if far vp saldos && far vp cap
    then false
    else not (any_other detected)

-- The loop over the warnings.
unfoldable pub all_allowed : Dict → List String → Bool
unfolding is_small_balance
all_allowed item [] = true
all_allowed item (w ∷ warnings) =
    if not (w == bank_inferred)
    then false
    else if not (is_small_balance item)
    then false
    else all_allowed item warnings

unfoldable pub item_warnings_allowed : Dict → Bool
unfolding all_allowed texts_in
item_warnings_allowed item = all_allowed item (texts_in (list_field "warnings" item))

-- An item that is no dictionary is passed over; so is one with an error.
unfoldable pub collect_disallowed : Items → List Dict
unfolding item_warnings_allowed
collect_disallowed nil = []
collect_disallowed (cons (obj item) vs) =
    let rest = collect_disallowed vs in
    if holds (lookup "error_code" item)
    then rest
    else if not (item_warnings_allowed item)
    then item ∷ rest
    else rest
collect_disallowed (cons v vs) = collect_disallowed vs

abbrev pub is_nil : List Dict → Bool
is_nil [] = true
is_nil (d ∷ ds) = false

abbrev pub preflight_error : String → Exn
preflight_error code = error "AmortizationPreflightError" code

-- `validate_amortization_preflight`
unfoldable pub validate_preflight : Dict → Result (Unit {0})
unfolding collect_disallowed lookup
validate_preflight dry_run =
    let summary = dict_field "summary" dry_run in
    if ltb 0 (count_field "errors" summary)
    then raised (preflight_error "preflight_errors")
    else if ltb 0 (count_field "revision_manual" summary)
    then raised (preflight_error "preflight_revision_manual")
    else if not (is_nil (collect_disallowed (list_field "items" dry_run)))
    then raised (preflight_error "preflight_warnings_not_allowed")
    else ok tt
