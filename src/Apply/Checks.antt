-- ===== src/Apply/Checks.antt =====
-- What the checks of an apply say, and that its summary adds up
-- (app/application/services/amortization_apply_safety.py,
-- app/application/use_cases/amortization_fill_apply.py and app/application/jobs/amortization_apply_job.py).
use automitizacion_hbi_capit.Base.{
  ℕ, suc, ◌+◌, ◌≤◌, String, ◌≡◌, refl, ap, ◌∙◌, inl, inr, Bool, true, false, not, ◌&&◌, ◌||◌,
  Option, none, some, List, [], ◌∷◌, length, if◌then◌else◌, ◌==◌, eq→≡, arith, Bool-cases,
}
use automitizacion_hbi_capit.Base.Texts.{strip}
use automitizacion_hbi_capit.Json.{
  Value, null, bool, num, money, text, iso, arr, obj, Dict, is_text, ref,
}
use automitizacion_hbi_capit.Json.Ops.{lookup}
use automitizacion_hbi_capit.Jobs.Amortization.{
  Guardrails, guardrails, signals, signals-agree, count_of, count_skipped, is_skipped, length_items,
}
use automitizacion_hbi_capit.Json.{Items, nil, cons}
use automitizacion_hbi_capit.Effects.{ok}
use automitizacion_hbi_capit.Apply.{
  text_field, LogRow, new_event, changed_pdf, same_event, check_idempotency, count_status,
  apply_summarize,
}

-- Two fingerprints that are both there and differ, or agree.
abbrev pub differ : String → String → Bool
differ a b = (not (a == "") && not (b == "")) && not (a == b)

abbrev pub agree : String → String → Bool
agree a b = (not (a == "") && not (b == "")) && a == b

decided :
    (d d' s s' n : Bool)
    → let c =
        if d
        then changed_pdf "asiento_pdf_hash distinto al registrado"
        else if d'
        then changed_pdf "asiento_pdf_etag distinto al registrado"
        else if s
        then same_event
        else if s'
        then same_event
        else if n
        then same_event
        else new_event in
      (c.pdf_changed ≡ (d || d')) × (c.skip_idempotent ≡ (not (d || d') && (s || (s' || n))))
decided true d' s s' n = (refl, refl)
decided false true s s' n = (refl, refl)
decided false false true s' n = (refl, refl)
decided false false false true n = (refl, refl)
decided false false false false true = (refl, refl)
decided false false false false false = (refl, refl)

-- Where an event is in the log, its PDF counts as changed exactly if the hash or the tag are on both
-- sides and differ, and it is skipped exactly if none of them differs and one agrees, or if the log
-- holds neither.
pub check_idempotency-logged :
    (item : Dict) (log_index : String → Option LogRow) (row : LogRow)
    → (text_field "idempotency_key" item == "") ≡ false
    → log_index (text_field "idempotency_key" item) ≡ some row
    → let h = strip row.pdf_hash in
      let e = strip row.pdf_etag in
      let h' = text_field "asiento_pdf_hash" item in
      let e' = text_field "asiento_pdf_etag" item in
      let c = check_idempotency item log_index in
      (c.pdf_changed ≡ (differ h h' || differ e e'))
      × (c.skip_idempotent ≡ (
          not (differ h h' || differ e e') && (agree h h' || (agree e e' || (h == "" && e == "")))))
unfolding check_idempotency
check_idempotency-logged item log_index row k l =
    let h = strip row.pdf_hash in
    let e = strip row.pdf_etag in
    let h' = text_field "asiento_pdf_hash" item in
    let e' = text_field "asiento_pdf_etag" item in
    rw (k, l) (decided (differ h h') (differ e e') (agree h h') (agree e e') (h == "" && e == ""))

is_text-other :
    (o : Option Value) (t u : String) → (t == u) ≡ false → is_text o t ≡ true → is_text o u ≡ false
is_text-other none t u n h = refl
is_text-other (some (text v)) t u n h = ap (λ x. x == u) (eq→≡ v t h) ∙ n
is_text-other (some null) t u n h = refl
is_text-other (some (bool b)) t u n h = refl
is_text-other (some (num k)) t u n h = refl
is_text-other (some (money z)) t u n h = refl
is_text-other (some (iso i)) t u n h = refl
is_text-other (some (ref r)) t u n h = refl
is_text-other (some (arr xs)) t u n h = refl
is_text-other (some (obj d)) t u n h = refl

one_more :
    (o : Option Value) (a b c n : ℕ)
    → a + b + c ≤ n
    → (if is_text o "APPLIED" then suc a else a)
        + (if is_text o "ADOPTED" then suc b else b)
        + (if is_text o "SKIPPED_IDEMPOTENT" then suc c else c)
      ≤ suc n
one_more o a b c n h = elim (Bool-cases (is_text o "APPLIED")) [
  | inl p ↦
      rw
        (
          p,
          is_text-other o "APPLIED" "ADOPTED" refl p,
          is_text-other o "APPLIED" "SKIPPED_IDEMPOTENT" refl p,
        )
        (omega (arith, h))
  | inr p ↦ elim (Bool-cases (is_text o "ADOPTED")) [
    | inl q ↦ rw (p, q, is_text-other o "ADOPTED" "SKIPPED_IDEMPOTENT" refl q) (omega (arith, h))
    | inr q ↦ ground arith
  ]
]

-- The four statuses of an item exclude each other.
counts_le_length :
    (items : List Dict)
    → count_status "APPLIED" items
        + count_status "ADOPTED" items
        + count_status "SKIPPED_IDEMPOTENT" items
      ≤ length items
unfolding count_status
counts_le_length [] = omega arith
counts_le_length (it ∷ items) =
    one_more (lookup "apply_status" it) _ _ _ (length items) (counts_le_length items)

-- A list of dictionaries, as a value holds it.
abbrev pub objects : List Dict → Items
objects [] = nil
objects (d ∷ ds) = cons (obj d) (objects ds)

count_skipped-objects : (tables : List Dict) → (n : ℕ) × (count_skipped (objects tables) ≡ ok n)
unfolding count_skipped
count_skipped-objects [] = (0, refl)
count_skipped-objects (d ∷ tables) =
    let (n, h) = count_skipped-objects tables in ((if is_skipped d then suc n else n), rw h refl)

count_of-num : (n : ℕ) → count_of (some (num n)) ≡ ok n
count_of-num n = ground arith

-- A result with its lists of uploads and of tables, and with the summary of its items, is not refused by
-- the signals of the apply job, and they never say both that all items were skipped and that something
-- was written.
pub apply_summarize-guardrails :
    (result : Dict) (items tables : List Dict) (uploads : Items)
    → lookup "summary" result ≡ some (obj (apply_summarize items))
    → lookup "tables_uploaded" result ≡ some (arr uploads)
    → lookup "tables_summary" result ≡ some (arr (objects tables))
    → (g : Guardrails) × (guardrails result ≡ ok g)
      × ((g.all_skipped_idempotent && g.apply_wrote_changes) ≡ false)
unfolding guardrails lookup
apply_summarize-guardrails result items tables uploads h u t =
    let (n, skipped_tables) = count_skipped-objects tables in
    let applied = count_status "APPLIED" items in
    let adopted = count_status "ADOPTED" items in
    let skips = count_status "SKIPPED_IDEMPOTENT" items in
    (
      signals (length_items uploads) n skips (length items) applied adopted,
      rw
          (
            h,
            u,
            t,
            skipped_tables,
            count_of-num skips,
            count_of-num (length items),
            count_of-num applied,
            count_of-num adopted,
          )
          refl,
      signals-agree (length_items uploads) n skips (length items) applied adopted
          (counts_le_length items),
    )
