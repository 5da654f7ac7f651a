-- ===== src/Apply/Outcome.antt =====
-- How `run_amortization_fill_apply` (app/application/use_cases/amortization_fill_apply.py) ends.
use automitizacion_hbi_capit.Base.{
  ◌+◌, String, ◌≡◌, refl, ◌⊎◌, inl, inr, Bool, true, false, some, List, [], ◌∷◌, ◌++◌, arith,
  Bool-cases,
}
use automitizacion_hbi_capit.Json.{text, Dict}
use automitizacion_hbi_capit.Json.Ops.{lookup, insert, lookup-insert}
use automitizacion_hbi_capit.Effects.{Result, ok, raised, Act}
use automitizacion_hbi_capit.Base.Texts.{take_chars}
use automitizacion_hbi_capit.Graph.{Graph, message}
use automitizacion_hbi_capit.Apply.{count_status}
use automitizacion_hbi_capit.Apply.Preflight.{validate_preflight}
use automitizacion_hbi_capit.Apply.Table.{Sheets, TableResult, error_row}
use automitizacion_hbi_capit.Apply.Upload.{apply_one_table}
use automitizacion_hbi_capit.Apply.Statuses.{NoneWritten}
use automitizacion_hbi_capit.Apply.Told.{IfTold, apply_one_table-IfTold}
use automitizacion_hbi_capit.Apply.Run.{
  Collected, nothing_yet, with_table, error_rows, with_failure, is_safety, collect, ApplyRun,
  apply_tables, after_preflight, run_amortization_fill_apply, writable_planned_items,
}

-- Whether a table was uploaded.
abbrev pub some_uploaded : List String → Bool
some_uploaded [] = false
some_uploaded (p ∷ paths) = true

-- A table was uploaded, or no item counts as applied or adopted.
abbrev pub IsHonest : Collected → Type 0
IsHonest c = (some_uploaded c.tables_uploaded ≡ true) ⊎ NoneWritten c.items

-- The run returns, and what it returns is honest.
abbrev pub EndsHonest : {S : Type 0} → Result ApplyRun × S → Type 0
EndsHonest (ok r, s) = IsHonest r.collected
EndsHonest (raised e, s) = ⊥

count_status-append :
    (st : String) (xs ys : List Dict)
    → count_status st (xs ++ ys) ≡ count_status st xs + count_status st ys
unfolding count_status
count_status-append st [] ys = omega arith
count_status-append st (x ∷ xs) ys = rw (count_status-append st xs ys) (ground arith)

NoneWritten-append : (xs ys : List Dict) → NoneWritten xs → NoneWritten ys → NoneWritten (xs ++ ys)
NoneWritten-append xs ys (a, b) (c, d) = (
  rw (count_status-append "APPLIED" xs ys, a, c) refl,
  rw (count_status-append "ADOPTED" xs ys, b, d) refl,
)

some_uploaded-append : (paths : List String) (p : String) → some_uploaded (paths ++ p ∷ []) ≡ true
some_uploaded-append [] p = refl
some_uploaded-append (q ∷ paths) p = refl

error_rows-status :
    (code m : String) (item : Dict)
    → lookup "apply_status" (insert "apply_message" (text m) (error_row code item))
      ≡ some (text "ERROR")
error_rows-status code m item = simp lookup-insert

error_rows-NoneWritten :
    (code m : String) (items : List Dict) → NoneWritten (error_rows code m items)
unfolding count_status
error_rows-NoneWritten code m [] = (refl, refl)
error_rows-NoneWritten code m (item ∷ items) =
    let h = error_rows-NoneWritten code m items in
    (rw (error_rows-status code m item, h.0) refl, rw (error_rows-status code m item, h.1) refl)

with_table-IsHonest :
    (path : String) (c : Collected) (t : TableResult)
    → (t.uploaded ≡ true) ⊎ NoneWritten t.items
    → IsHonest c
    → IsHonest (with_table path c t)
unfolding with_table
with_table-IsHonest path c t (inl u) h = inl (rw u (some_uploaded-append c.tables_uploaded path))
with_table-IsHonest path c t (inr n) (inr m) = inr (NoneWritten-append c.items t.items m n)
with_table-IsHonest path c t (inr n) (inl u) = inl (elim (Bool-cases t.uploaded) [
  | inl y ↦ rw y (some_uploaded-append c.tables_uploaded path)
  | inr y ↦ rw y u
])

with_failure-IsHonest :
    (path : String) (planned : List Dict) (c : Collected) (code m : String)
    → IsHonest c
    → IsHonest (with_failure path planned c code m)
unfolding with_failure
with_failure-IsHonest path planned c code m (inl u) = inl u
with_failure-IsHonest path planned c code m (inr n) = inr (
    NoneWritten-append c.items (error_rows code m planned) n
      (error_rows-NoneWritten code m planned))

module _ {S B W : Type 0} (graph : Graph S B) (sheets : Sheets B W) where
  collect-IsHonest :
      (path : String) (planned : List Dict) (c : Collected) (r : Result TableResult) (s : S)
      → IfTold graph sheets path (r, s)
      → IsHonest c
      → IsHonest (collect path planned c r)
  unfolding collect
  collect-IsHonest path planned c (ok t) s (inl v) h =
      with_table-IsHonest path c t (inl v.uploaded) h
  collect-IsHonest path planned c (ok t) s (inr n) h = with_table-IsHonest path c t (inr n) h
  collect-IsHonest path planned c (raised e) s told h = elim (Bool-cases (is_safety e)) [
    | inl y ↦ rw y (with_failure-IsHonest path planned c "APPLY_SAFETY_ABORT" (message e) h)
    | inr y ↦
        rw y
          (with_failure-IsHonest path planned c "TABLE_APPLY_FAILED" (take_chars 500 (message e)) h)
  ]

  -- The loop returns.
  apply_tables-IsHonest :
      (tables : List (String × List Dict)) (c : Collected) (s : S)
      → IsHonest c
      → (c' : Collected) × (s' : S) × (apply_tables graph sheets tables c s ≡ (ok c', s'))
        × IsHonest c'
  unfolding apply_tables
  apply_tables-IsHonest [] c s h = (c, s, refl, h)
  apply_tables-IsHonest ((path, planned) ∷ tables) c s h =
      let r = apply_one_table graph sheets path planned s in
      apply_tables-IsHonest tables (collect path planned c r.0) r.1 (
        collect-IsHonest path planned c r.0 r.1 (apply_one_table-IfTold graph sheets path planned s)
          h)

  after_preflight-EndsHonest :
      (drive_context : Act S (Unit {0})) (dry_run : Dict) (checked : Result (Unit {0})) (s s' : S)
      → drive_context s ≡ (ok tt, s')
      → EndsHonest (after_preflight graph sheets drive_context dry_run checked s)
  unfolding count_status
  after_preflight-EndsHonest drive_context dry_run (raised e) s s' k = inr (refl, refl)
  after_preflight-EndsHonest drive_context dry_run (ok u) s s' k =
      let (c, s'', e, h) =
        apply_tables-IsHonest (writable_planned_items dry_run) nothing_yet s' (inr (refl, refl)) in
      rw (k, e) h

  -- Where the dry run returns and the drive is found, the run returns, and it reports an item as applied
  -- or adopted only if it reports a table as uploaded.
  pub run_amortization_fill_apply-EndsHonest :
      (dry_run : Act S Dict) (drive_context : Act S (Unit {0})) (d : Dict) (s s1 s2 : S)
      → dry_run s ≡ (ok d, s1)
      → drive_context s1 ≡ (ok tt, s2)
      → EndsHonest (run_amortization_fill_apply graph sheets dry_run drive_context s)
  unfolding run_amortization_fill_apply
  run_amortization_fill_apply-EndsHonest dry_run drive_context d s s1 s2 h k =
      rw h (after_preflight-EndsHonest drive_context d (validate_preflight d) s1 s2 k)
