-- ===== src/Apply/Statuses.antt =====
-- What the statuses of a table's items say after the apply
-- (app/application/use_cases/amortization_fill_apply.py).
use automitizacion_hbi_capit.Base.{
  suc, String, ◌≡◌, refl, sym, ap, ◌∙◌, inl, inr, Bool, true, false, not, ◌||◌, Option, some, List,
  [], ◌∷◌, ◌++◌, if◌then◌else◌, ◌==◌, arith, Bool-cases,
}
use automitizacion_hbi_capit.Json.{text, Dict, empty, is_text}
use automitizacion_hbi_capit.Json.Ops.{lookup, insert, lookup-insert}
use automitizacion_hbi_capit.Effects.{Exn, Result, ok, raised}
use automitizacion_hbi_capit.Apply.{
  count_status, mark_items_error, mark_row, LogRow, check_idempotency,
}
use automitizacion_hbi_capit.Apply.Table.{
  Sheets, Progress, error_row, changed_row, skipped_row, is_none, code_or_not_planned, safety_error,
  with_result, written, base_of, apply_item, apply_items,
}
use automitizacion_hbi_capit.Apply.Upload.{failed_rows}

-- No item counts as applied or adopted.
abbrev pub NoneWritten : List Dict → Type 0
NoneWritten items = (count_status "APPLIED" items ≡ 0) × (count_status "ADOPTED" items ≡ 0)

count-cons :
    (st : String) (row : Dict) (rows : List Dict) (b : Bool)
    → is_text (lookup "apply_status" row) st ≡ b
    → count_status st (row ∷ rows)
      ≡ (if b then suc (count_status st rows) else count_status st rows)
unfolding count_status
count-cons st row rows b h = rw h refl

count-append :
    (st : String) (xs : List Dict) (row : Dict)
    → count_status st (xs ++ row ∷ []) ≡ count_status st (row ∷ xs)
unfolding count_status
count-append st [] row = refl
count-append st (x ∷ xs) row = rw (count-append st xs row) (ground arith)

-- A row with a status of its own.
status-of :
    (st : String) (row : Dict) (t : String)
    → lookup "apply_status" row ≡ some (text t)
    → is_text (lookup "apply_status" row) st ≡ (t == st)
status-of st row t h = ap (λ o. is_text o st) h

error-status :
    (code : String) (base : Dict)
    → lookup "apply_status" (error_row code base) ≡ some (text "ERROR")
error-status code base = simp lookup-insert

changed-status :
    (reason : String) (base : Dict)
    → lookup "apply_status" (changed_row reason base) ≡ some (text "ERROR")
changed-status reason base = simp lookup-insert

skipped-status :
    (base : Dict) → lookup "apply_status" (skipped_row base) ≡ some (text "SKIPPED_IDEMPOTENT")
skipped-status base = simp lookup-insert

pub failed_rows-NoneWritten : (m : String) (items : List Dict) → NoneWritten (failed_rows m items)
unfolding count_status
failed_rows-NoneWritten m [] = (refl, refl)
failed_rows-NoneWritten m (item ∷ items) =
    let e : lookup "apply_status"
          (insert "apply_message" (text m) (error_row "AMORTIZATION_SHEET_NOT_FOUND" item))
        ≡ some (text "ERROR") =
      simp lookup-insert in
    let h = failed_rows-NoneWritten m items in (rw (e, h.0) refl, rw (e, h.1) refl)

marked-status :
    (code m : String) (row : Dict)
    → lookup "apply_status" (
        insert "apply_message"
          (text m)
          (insert "apply_error_code" (text code) (insert "apply_status" (text "ERROR") row)))
      ≡ some (text "ERROR")
marked-status code m row = simp lookup-insert

mark_row-status :
    (code m : String) (row : Dict)
    → (is_text (lookup "apply_status" (mark_row code m row)) "APPLIED" ≡ false)
      × (is_text (lookup "apply_status" (mark_row code m row)) "ADOPTED" ≡ false)
mark_row-status code m row = elim (Bool-cases (is_text (lookup "apply_status" row) "APPLIED")) [
  | inl a ↦ rw a (rw (marked-status code m row) (refl, refl))
  | inr a ↦ elim (Bool-cases (is_text (lookup "apply_status" row) "ADOPTED")) [
    | inl b ↦ rw (a, b) (rw (marked-status code m row) (refl, refl))
    | inr b ↦ rw (a, b) (a, b)
  ]
]

pub mark_items_error-NoneWritten :
    (code m : String) (rows : List Dict) → NoneWritten (mark_items_error code m rows)
unfolding mark_items_error count_status
mark_items_error-NoneWritten code m [] = (refl, refl)
mark_items_error-NoneWritten code m (row ∷ rows) =
    let s = mark_row-status code m row in
    let h = mark_items_error-NoneWritten code m rows in (rw (s.0, h.0) refl, rw (s.1, h.1) refl)

module _ {B W : Type 0} (sheets : Sheets B W) (sheet_name : String) where
  -- As many results are applied, and as many adopted, as are to be verified.
  pub record IsTold (p : Progress W) : Type 0 where
    pub applied : count_status "APPLIED" p.results ≡ count_status "APPLIED" p.applied_for_verify
    pub adopted : count_status "ADOPTED" p.results ≡ count_status "ADOPTED" p.applied_for_verify

  with_result-IsTold :
      (p : Progress W) (row : Dict) (t : String)
      → IsTold p
      → lookup "apply_status" row ≡ some (text t)
      → (t == "APPLIED") ≡ false
      → (t == "ADOPTED") ≡ false
      → IsTold (with_result sheets sheet_name p row)
  with_result-IsTold p row t i h a d = record {
    applied =
        count-append "APPLIED" p.results row
        ∙ count-cons "APPLIED" row p.results false (status-of "APPLIED" row t h ∙ a)
        ∙ i.applied;
    adopted =
        count-append "ADOPTED" p.results row
        ∙ count-cons "ADOPTED" row p.results false (status-of "ADOPTED" row t h ∙ d)
        ∙ i.adopted;
  }

  both-cons :
      (st : String) (xs ys : List Dict) (row : Dict)
      → count_status st xs ≡ count_status st ys
      → count_status st (xs ++ row ∷ []) ≡ count_status st (ys ++ row ∷ [])
  unfolding count_status
  both-cons st xs ys row h = count-append st xs row ∙ rw h (sym (count-append st ys row))

  written-IsTold :
      (p : Progress W) (item : Dict) (status accion : String) (r : W × Dict)
      → IsTold p
      → IsTold (written sheets sheet_name p item status accion r)
  written-IsTold p item status accion (wb, plan) i = record {
    applied = both-cons "APPLIED" p.results p.applied_for_verify _ i.applied;
    adopted = both-cons "ADOPTED" p.results p.applied_for_verify _ i.adopted;
  }

  -- What holds of a turn that succeeds.
  pub data Keeps : Result (Progress W) → Type 0 where
    kept : {p : Progress W} → IsTold p → Keeps (ok p)
    aborted : {e : Exn} → Keeps (raised e)

  if-Keeps : (b : Bool) {x y : Result (Progress W)} → Keeps x → Keeps y → Keeps (if b then x else y)
  if-Keeps true hx hy = hx
  if-Keeps false hx hy = hy

  error-kept :
      (code : String) (p : Progress W) (item : Dict)
      → IsTold p
      → Keeps (ok (with_result sheets sheet_name p (error_row code (base_of item))))
  error-kept code p item i =
      kept (with_result-IsTold p _ "ERROR" i (error-status code (base_of item)) refl refl)

  changed-kept :
      (reason : String) (p : Progress W) (item : Dict)
      → IsTold p
      → Keeps (ok (with_result sheets sheet_name p (changed_row reason (base_of item))))
  changed-kept reason p item i =
      kept (with_result-IsTold p _ "ERROR" i (changed-status reason (base_of item)) refl refl)

  skipped-kept :
      (p : Progress W) (item : Dict)
      → IsTold p
      → Keeps (ok (with_result sheets sheet_name p (skipped_row (base_of item))))
  skipped-kept p item i =
      kept (with_result-IsTold p _ "SKIPPED_IDEMPOTENT" i (skipped-status (base_of item)) refl refl)

  written-kept :
      (p : Progress W) (item : Dict) (status accion : String) (r : W × Dict)
      → IsTold p
      → Keeps (ok (written sheets sheet_name p item status accion r))
  written-kept p item status accion r i = kept (written-IsTold p item status accion r i)

  apply_item-Keeps :
      (log : String → Option LogRow) (p : Progress W) (item : Dict)
      → IsTold p
      → Keeps (apply_item sheets sheet_name log p item)
  unfolding apply_item
  apply_item-Keeps log p item i =
      let compare = sheets.compare_existing_application p.wb item in
      if-Keeps (check_idempotency item log).pdf_changed
        (changed-kept (check_idempotency item log).reason p item i)
        (if-Keeps (check_idempotency item log).skip_idempotent (skipped-kept p item i) (
          if-Keeps (is_none (lookup "application_row" item) || is_none (lookup "ibr_row" item))
            (error-kept (code_or_not_planned item) p item i)
            (if-Keeps (compare == "REVISION_MANUAL") (aborted {e = safety_error "apply abortado"}) (
              if-Keeps (is_text (lookup "application_status" item) "WOULD_APPLY")
                (if-Keeps (not (compare == "APLICADO"))
                  (aborted {e = safety_error "Se esperaba fila vacía"})
                  (written-kept p item "APPLIED" "APLICADO"
                    (sheets.write_payment_application p.wb item) i))
                (written-kept p item "ADOPTED" "ADOPTADO_EXISTENTE" (p.wb, empty) i)))))

  -- The remaining turns, from the result of one.
  apply_items-from :
      (log : String → Option LogRow) (items : List Dict) (r : Result (Progress W))
      → ((p : Progress W) → IsTold p → Keeps (apply_items sheets sheet_name log p items))
      → Keeps r
      → Keeps (elim r [ ok p' ↦ apply_items sheets sheet_name log p' items | raised e ↦ raised e ])
  apply_items-from log items (ok p') h (kept i) = h p' i
  apply_items-from log items (raised e) h k = aborted

  pub apply_items-Keeps :
      (log : String → Option LogRow) (items : List Dict) (p : Progress W)
      → IsTold p
      → Keeps (apply_items sheets sheet_name log p items)
  unfolding apply_items
  apply_items-Keeps log [] p i = kept i
  apply_items-Keeps log (item ∷ items) p i =
      apply_items-from log items (apply_item sheets sheet_name log p item)
        (λ p' j. apply_items-Keeps log items p' j) (apply_item-Keeps log p item i)
