-- ===== src/Apply/Refused.antt =====
-- What stops an apply before it reads a table (`validate_amortization_preflight` and
-- `run_amortization_fill_apply` of app/application/use_cases/amortization_fill_apply.py).
use automitizacion_hbi_capit.Base.{
  String, ◌≡◌, refl, inl, inr, Bool, true, false, not, List, ◌∷◌, if◌then◌else◌, Bool-cases, ltb,
}
use automitizacion_hbi_capit.Json.{
  Value, null, bool, num, money, text, iso, arr, obj, Items, nil, cons, Dict, holds,
}
use automitizacion_hbi_capit.Json.Ops.{lookup}
use automitizacion_hbi_capit.Effects.{ok, raised, Act}
use automitizacion_hbi_capit.Json.{ref}
use automitizacion_hbi_capit.Graph.{Graph}
use automitizacion_hbi_capit.Apply.{list_field, dict_field, count_field}
use automitizacion_hbi_capit.Apply.Preflight.{
  item_warnings_allowed, collect_disallowed, is_nil, preflight_error, validate_preflight,
}
use automitizacion_hbi_capit.Apply.Table.{Sheets}
use automitizacion_hbi_capit.Apply.Run.{preflight_failed, run_amortization_fill_apply}

-- A dictionary stands in a list of values.
pub data Among (item : Dict) : Items → Type 0 where
  here : {vs : Items} → Among item (cons (obj item) vs)
  there : {v : Value} {vs : Items} → Among item vs → Among item (cons v vs)

not_nil-rest :
    (b c : Bool) (item : Dict) (rest : List Dict)
    → is_nil rest ≡ false
    → is_nil (if b then rest else if not c then item ∷ rest else rest) ≡ false
not_nil-rest true c item rest h = h
not_nil-rest false true item rest h = h
not_nil-rest false false item rest h = refl

module _ (item : Dict) (clean : holds (lookup "error_code" item) ≡ false)
    (bad : item_warnings_allowed item ≡ false) where
  collect_disallowed-there :
      (v : Value) (vs : Items)
      → is_nil (collect_disallowed vs) ≡ false
      → is_nil (collect_disallowed (cons v vs)) ≡ false
  unfolding collect_disallowed
  collect_disallowed-there (obj d) vs h =
      not_nil-rest (holds (lookup "error_code" d)) (item_warnings_allowed d) d
        (collect_disallowed vs) h
  collect_disallowed-there null vs h = h
  collect_disallowed-there (bool b) vs h = h
  collect_disallowed-there (num n) vs h = h
  collect_disallowed-there (money z) vs h = h
  collect_disallowed-there (text t) vs h = h
  collect_disallowed-there (iso i) vs h = h
  collect_disallowed-there (ref r) vs h = h
  collect_disallowed-there (arr xs) vs h = h

  collect_disallowed-finds : (vs : Items) → Among item vs → is_nil (collect_disallowed vs) ≡ false
  unfolding collect_disallowed
  collect_disallowed-finds nil m = elim m [ ]
  collect_disallowed-finds (cons (obj _) vs) here = rw (clean, bad) refl
  collect_disallowed-finds (cons v vs) (there m) =
      collect_disallowed-there v vs (collect_disallowed-finds vs m)

  validate_preflight-stops :
      (dry_run : Dict)
      → Among item (list_field "items" dry_run)
      → (code : String) × (validate_preflight dry_run ≡ raised (preflight_error code))
  unfolding validate_preflight
  validate_preflight-stops dry_run m =
      let summary = dict_field "summary" dry_run in
      let found = collect_disallowed-finds (list_field "items" dry_run) m in
      elim (Bool-cases (ltb 0 (count_field "errors" summary))) [
        | inl e ↦ ("preflight_errors", rw e refl)
        | inr e ↦ elim (Bool-cases (ltb 0 (count_field "revision_manual" summary))) [
          | inl r ↦ ("preflight_revision_manual", rw (e, r) refl)
          | inr r ↦ ("preflight_warnings_not_allowed", rw (e, r, found) refl)
        ]
      ]

-- An item without an error that has a warning which is not allowed stops the whole run: the world stays
-- as the dry run left it, and the run returns that its preflight failed.
pub run_amortization_fill_apply-stopped :
    {S B W : Type 0} (graph : Graph S B) (sheets : Sheets B W) (dry_run : Act S Dict)
    (drive_context : Act S (Unit {0})) (d item : Dict) (s s1 : S)
    → dry_run s ≡ (ok d, s1)
    → Among item (list_field "items" d)
    → holds (lookup "error_code" item) ≡ false
    → item_warnings_allowed item ≡ false
    → (code : String) × (run_amortization_fill_apply graph sheets dry_run drive_context s
        ≡ (ok (preflight_failed code), s1))
unfolding run_amortization_fill_apply
run_amortization_fill_apply-stopped graph sheets dry_run drive_context d item s s1 h m clean bad =
    let (code, k) = validate_preflight-stops item clean bad d m in (code, rw (h, k) refl)
