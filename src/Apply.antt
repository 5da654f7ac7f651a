-- ===== src/Apply.antt =====
-- What the apply of the amortization tables decides before and after it writes
-- (app/application/services/amortization_apply_safety.py and
-- app/application/use_cases/amortization_fill_apply.py). An item is a dictionary.
pub mod Preflight
pub mod Checks
pub mod Table
pub mod Upload
pub mod Statuses
pub mod Told
pub mod Run
pub mod Outcome
pub mod Refused
use automitizacion_hbi_capit.Base.{
  ℕ, suc, String, Bool, true, false, not, ◌&&◌, ◌||◌, Option, none, some, List, [], ◌∷◌, length,
  if◌then◌else◌, ◌==◌,
}
use automitizacion_hbi_capit.Base.Texts.{strip}
use automitizacion_hbi_capit.Json.{num, text, arr, obj, Items, nil, Dict, empty, entry, is_text}
use automitizacion_hbi_capit.Json.Ops.{lookup, insert}
use automitizacion_hbi_capit.Review.{cell_text}

-- `str(d.get(k) or "").strip()`
abbrev pub text_field : String → Dict → String
text_field k d = cell_text (lookup k d)

-- `d.get(k) or {}` and `d.get(k) or []`
abbrev pub dict_field : String → Dict → Dict
dict_field k d = elim (lookup k d) [ some (obj o) ↦ o | _ ↦ empty ]

abbrev pub list_field : String → Dict → Items
list_field k d = elim (lookup k d) [ some (arr xs) ↦ xs | _ ↦ nil ]

-- `int(d.get(k) or 0)` of a number
abbrev pub count_field : String → Dict → ℕ
count_field k d = elim (lookup k d) [ some (num n) ↦ n | _ ↦ 0 ]

-- A row of the log of a table: the fingerprints of the PDF that was applied.
pub record LogRow : Type 0 where
  pub pdf_hash : String
  pub pdf_etag : String

pub record IdempotencyCheck : Type 0 where
  pub skip_idempotent : Bool
  pub pdf_changed : Bool
  pub reason : String

abbrev pub new_event : IdempotencyCheck
new_event = record { skip_idempotent = false; pdf_changed = false; reason = "" }

abbrev pub changed_pdf : String → IdempotencyCheck
changed_pdf reason = record { skip_idempotent = false; pdf_changed = true; reason = reason }

abbrev pub same_event : IdempotencyCheck
same_event = record { skip_idempotent = true; pdf_changed = false; reason = "" }

-- Two fingerprints that are both there.
abbrev both : String → String → Bool
both a b = not (a == "") && not (b == "")

abbrev compare_prints : String → String → String → String → IdempotencyCheck
compare_prints stored_hash new_hash stored_etag new_etag =
    if both stored_hash new_hash && not (stored_hash == new_hash)
    then changed_pdf "asiento_pdf_hash distinto al registrado"
    else if both stored_etag new_etag && not (stored_etag == new_etag)
    then changed_pdf "asiento_pdf_etag distinto al registrado"
    else if both stored_hash new_hash && stored_hash == new_hash
    then same_event
    else if both stored_etag new_etag && stored_etag == new_etag
    then same_event
    else if stored_hash == "" && stored_etag == ""
    then same_event
    else new_event

abbrev pub check_row : Option LogRow → String → String → IdempotencyCheck
check_row none new_hash new_etag = new_event
check_row (some row) new_hash new_etag =
    compare_prints (strip row.pdf_hash) new_hash (strip row.pdf_etag) new_etag

-- `check_idempotency_against_log`; its two last tests before the end are one, since the first of them
-- is a case of the second.
unfoldable pub check_idempotency : Dict → (String → Option LogRow) → IdempotencyCheck
unfolding cell_text strip lookup
check_idempotency item log_index =
    let key = text_field "idempotency_key" item in
    if key == ""
    then new_event
    else check_row (log_index key) (text_field "asiento_pdf_hash" item)
        (text_field "asiento_pdf_etag" item)

-- `_apply_summarize`
unfoldable pub count_status : String → List Dict → ℕ
unfolding lookup
count_status st [] = 0
count_status st (it ∷ items) =
    let rest = count_status st items in
    if is_text (lookup "apply_status" it) st then suc rest else rest

abbrev pub apply_summarize : List Dict → Dict
apply_summarize items = entry "total" (num (length items)) (
    entry "applied" (num (count_status "APPLIED" items)) (
      entry "adopted" (num (count_status "ADOPTED" items)) (
        entry "skipped_idempotent" (num (count_status "SKIPPED_IDEMPOTENT" items))
          (entry "errors" (num (count_status "ERROR" items)) empty))))

-- `_mark_table_items_error`
abbrev pub mark_row : String → String → Dict → Dict
mark_row code message row =
    if is_text (lookup "apply_status" row) "APPLIED"
      || is_text (lookup "apply_status" row) "ADOPTED"
    then insert "apply_message" (text message)
        (insert "apply_error_code" (text code) (insert "apply_status" (text "ERROR") row))
    else row

unfoldable pub mark_items_error : String → String → List Dict → List Dict
unfolding insert lookup
mark_items_error code message [] = []
mark_items_error code message (row ∷ rows) =
    mark_row code message row ∷ mark_items_error code message rows
