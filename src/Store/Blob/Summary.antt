-- ===== src/Store/Blob/Summary.antt =====
-- `extract_result_summary` of app/adapters/secondary/vercel_blob_job_store.py.
use automitizacion_hbi_capit.Base.{
  ℕ, ◌+◌, String, Option, none, some, List, [], ◌∷◌, ltb, if◌then◌else◌,
}
use automitizacion_hbi_capit.Json.{
  Value, num, text, arr, obj, Items, nil, cons, Dict, empty, entry, truthy,
}
use automitizacion_hbi_capit.Json.Ops.{lookup, insert}

abbrev copy_key : Dict → String → Dict → Dict
copy_key result key summary = elim (lookup key result) [
  | none ↦ summary
  | some v ↦ insert key v summary
]

unfoldable pub copy_keys : Dict → List String → Dict → Dict
copy_keys result [] summary = summary
copy_keys result (k ∷ ks) summary = copy_keys result ks (copy_key result k summary)

abbrev pub summary_keys : List String
summary_keys =
    "status" ∷ "message" ∷ "process_date" ∷ "validation_file" ∷ "validation_file_path"
    ∷ "historical_file_path" ∷ "report_date_iso" ∷ "outputs_count" ∷ "skipped_count"
    ∷ "processed_rows" ∷ "ok_count" ∷ "error_count" ∷ "elapsed_ms" ∷ []

unfoldable pub count_items : Items → ℕ
count_items nil = 0
count_items (cons x xs) = count_items xs + 1

-- `list(result.keys())[:n]`
unfoldable pub first_keys : ℕ → Dict → Items
first_keys n empty = nil
first_keys n (entry k v d) =
    if ltb 0 n then cons (text k) (first_keys (Prim.Native.Nat.pred n) d) else nil

-- `if "summary" in result and isinstance(result["summary"], dict)`
abbrev with_summary : Option Value → Dict → Dict
with_summary (some (obj d)) summary = insert "summary" (obj d) summary
with_summary _ summary = summary

abbrev or_count : Option Value → ℕ → Value
or_count none n = num n
or_count (some v) n = if truthy v then v else num n

abbrev with_outputs : Option Value → Dict → Dict
unfolding count_items
with_outputs (some (arr xs)) summary =
    insert "outputs_count" (or_count (lookup "outputs_count" summary) (count_items xs)) summary
with_outputs _ summary = summary

abbrev or_keys : Dict → Dict → Dict
unfolding first_keys
or_keys result empty = entry "keys" (arr (first_keys 30 result)) empty
or_keys result summary = summary

unfoldable pub extract_result_summary : Dict → Dict
unfolding copy_keys with_outputs or_keys
extract_result_summary result =
    let picked = copy_keys result summary_keys empty in
    let summed = with_summary (lookup "summary" result) picked in
    or_keys result (with_outputs (lookup "outputs" result) summed)
