-- ===== src/Jobs/Amortization.antt =====
-- app/application/jobs/amortization_apply_job.py and amortization_dry_run_job.py. The use cases
-- `run_amortization_fill_apply` and `run_amortization_fill_dry_run` are parameters, which return a
-- dictionary.
use automitizacion_hbi_capit.Base.{
  none, ℕ, ◌/◌, suc, ◌+◌, ◌≤◌, String, ◌≡◌, Bool, false, ◌&&◌, ◌||◌, Option, some, if◌then◌else◌,
  ◌==◌, arith, ltb, eqb,
}
use automitizacion_hbi_capit.Json.{
  Value, bool, num, money, iso, truthy, text, arr, obj, Items, nil, cons, Dict, empty, entry,
}
use automitizacion_hbi_capit.Json.Ops.{lookup, update}
use automitizacion_hbi_capit.Effects.{Exn, error, Result, ok, raised, Act, ◌>>=◌, reraise, and_then}
use automitizacion_hbi_capit.Store.{JobStore}
use automitizacion_hbi_capit.RunGuard.{exn_message, exn_type, error_value}
use Prim.Native.String.{slice, len}
use package.text.Mathlib.Text.{find?}
use automitizacion_hbi_capit.Base.Texts.{strip, lower}
use automitizacion_hbi_capit.Review.{cell_text}
use automitizacion_hbi_capit.Base.Signed.{pos, negsuc}
use automitizacion_hbi_capit.Jobs.{completed_updates, failed_updates, run_guarded}

-- `int(v)` of a value that is truthy. A text raises, as one does that is no numeral; no count is below
-- zero.
abbrev int_of : Value → Result ℕ
int_of (num n) = ok n
int_of (bool b) = ok 1
int_of (money (pos cents)) = ok (cents / 100)
int_of (money (negsuc cents)) = ok 0
int_of (text t) = raised (error "ValueError" "invalid literal for int() with base 10")
int_of (iso t) = raised (error "ValueError" "invalid literal for int() with base 10")
int_of _ = raised (error "TypeError" "int() argument must be a string or a number")

-- `int(d.get(k) or 0)`
abbrev pub count_of : Option Value → Result ℕ
count_of none = ok 0
count_of (some v) = if truthy v then int_of v else ok 0

-- `d or {}`, of which `get` is called.
abbrev pub dict_of : Option Value → Result Dict
dict_of (some (obj d)) = ok d
dict_of none = ok empty
dict_of (some v) =
    if truthy v then raised (error "AttributeError" "object has no attribute 'get'") else ok empty

abbrev pub count_in : String → Option Value → Result ℕ
count_in k summary = and_then (dict_of summary) λ d. count_of (lookup k d)

abbrev pub length_items : Items → ℕ
length_items nil = 0
length_items (cons _ xs) = suc (length_items xs)

abbrev entries : Dict → ℕ
entries empty = 0
entries (entry k v d) = suc (entries d)

-- `len(v or [])`
abbrev pub length_of : Option Value → Result ℕ
length_of none = ok 0
length_of (some (arr xs)) = ok (length_items xs)
length_of (some (text t)) = ok (len t)
length_of (some (obj d)) = ok (entries d)
length_of (some v) = if truthy v then raised (error "TypeError" "object has no len()") else ok 0

abbrev pub is_skipped : Dict → Bool
is_skipped ts = lower (cell_text (lookup "upload_status" ts)) == "skipped"

-- The tables of the summary with the upload status `skipped`.
unfoldable pub count_skipped : Items → Result ℕ
unfolding lookup cell_text lower
count_skipped nil = ok 0
count_skipped (cons (obj ts) xs) =
    let rest = count_skipped xs in and_then rest λ n. ok (if is_skipped ts then suc n else n)
count_skipped (cons _ xs) = raised (error "AttributeError" "object has no attribute 'get'")

abbrev pub skipped_in : Option Value → Result ℕ
skipped_in none = ok 0
skipped_in (some (arr xs)) = count_skipped xs
skipped_in (some v) = if truthy v then raised (error "TypeError" "no list of tables") else ok 0

-- The signals of the apply job about what it has written.
pub record Guardrails : Type 0 where
  pub tables_uploaded_count : ℕ
  pub tables_skipped_count : ℕ
  pub idempotent_skips_count : ℕ
  pub all_skipped_idempotent : Bool
  pub apply_wrote_changes : Bool

abbrev pub signals : ℕ → ℕ → ℕ → ℕ → ℕ → ℕ → Guardrails
signals uploaded skipped_tables skips total applied adopted = record {
  tables_uploaded_count = uploaded;
  tables_skipped_count = skipped_tables;
  idempotent_skips_count = skips;
  all_skipped_idempotent = ltb 0 total && eqb skips total && eqb uploaded 0;
  apply_wrote_changes = ltb 0 (applied + adopted) || ltb 0 uploaded;
}

unfoldable pub guardrails : Dict → Result Guardrails
unfolding count_skipped
guardrails result =
    let summary = lookup "summary" result in
    and_then (length_of (lookup "tables_uploaded" result)) λ uploaded.
      and_then (skipped_in (lookup "tables_summary" result)) λ skipped_tables.
        and_then (count_in "skipped_idempotent" summary) λ skips.
          and_then (count_in "total" summary) λ total.
            and_then (count_in "applied" summary) λ applied.
              and_then (count_in "adopted" summary)
                λ adopted. ok (signals uploaded skipped_tables skips total applied adopted)

-- The result with its signals, within the `try` of the job.
abbrev pub guarded : Dict → Result (Dict × Guardrails)
guarded result = and_then (guardrails result) λ g. ok (result, g)

-- `{**result, "elapsed_ms": ..., ...}`
abbrev pub apply_result : Dict × Guardrails → Value → Dict
apply_result (result, g) elapsed = update result (
    entry "elapsed_ms" elapsed (
      entry "tables_uploaded_count" (num g.tables_uploaded_count) (
        entry "tables_skipped_count" (num g.tables_skipped_count) (
          entry "idempotent_skips_count" (num g.idempotent_skips_count) (
            entry "all_skipped_idempotent" (bool g.all_skipped_idempotent)
              (entry "apply_wrote_changes" (bool g.apply_wrote_changes) empty))))))

-- `msg.split("|", 1)[0].strip() if "|" in msg else msg.strip()`
unfoldable pub error_code : String → String
unfolding strip
error_code msg = elim (find? msg "|") [ none ↦ strip msg | some i ↦ strip (slice msg 0 i) ]

-- What the three `except` clauses persist as the error.
unfoldable pub amortization_error : Exn → Value
unfolding error_code
amortization_error e =
    if exn_type e == "ValueError"
    then obj (
        entry "type" (text "ValueError") (
          entry "message" (text (exn_message e))
            (entry "error_code" (text (error_code (exn_message e))) empty)))
    else if exn_type e == "GraphConfigError"
    then obj (
        entry "type" (text "GraphConfigError") (
          entry "message" (text (exn_message e))
            (entry "error_code" (text "graph_config_error") empty)))
    else error_value (exn_type e) (exn_message e)

abbrev pub amortization_failed : Exn → Value → Dict
amortization_failed e now = failed_updates now (amortization_error e)

abbrev pub apply_finished : Dict × Guardrails → Value → Value → Dict
apply_finished guarded' elapsed now = completed_updates now (obj (apply_result guarded' elapsed))

abbrev pub dry_run_finished : Dict → Value → Value → Dict
dry_run_finished result elapsed now =
    completed_updates now (obj (update result (entry "elapsed_ms" elapsed empty)))

module _ {S : Type 0} (st : JobStore S) where
  unfoldable pub execute_amortization_apply_job : Act S Dict → String → Act S (Unit {0})
  unfolding guardrails
  execute_amortization_apply_job run_amortization_fill_apply id =
      run_guarded st id (entry "type" (text "amortization_apply") empty)
        (run_amortization_fill_apply >>= λ result. reraise (guarded result)) apply_finished
        amortization_failed

  unfoldable pub execute_amortization_dry_run_job : Act S Dict → String → Act S (Unit {0})
  execute_amortization_dry_run_job run_amortization_fill_dry_run id =
      run_guarded st id empty run_amortization_fill_dry_run dry_run_finished amortization_failed

-- Where the counts add up, the signals do not say both that every item was skipped as already applied
-- and that something was written.
pub signals-agree :
    (uploaded skipped_tables skips total applied adopted : ℕ)
    → applied + adopted + skips ≤ total
    → let g = signals uploaded skipped_tables skips total applied adopted in
      (g.all_skipped_idempotent && g.apply_wrote_changes) ≡ false
signals-agree uploaded skipped_tables skips total applied adopted h = ground arith
