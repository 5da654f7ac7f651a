-- ===== src/Store/Blob/Results.antt =====
-- The storage of results in app/adapters/secondary/vercel_blob_job_store.py: what `_persist_result`
-- stores is what `_load_result_for_get` gives back.
use automitizacion_hbi_capit.Base.{
  String, ◌≡◌, inl, inr, Bool, true, false, none, some, leb, ltb, Bool-cases, if◌then◌else◌,
  eq_refl,
}
use automitizacion_hbi_capit.Json.{BlobPath, ref, obj, Dict, is_text, holds}
use automitizacion_hbi_capit.Json.Ops.{lookup, lookup-insert, lookup-delete, lookup-set_default}
use automitizacion_hbi_capit.Store.Blob.{
  json, Config, Objects, persist_result, load_result_for_get, large,
}
use automitizacion_hbi_capit.Store.Blob.Summary.{extract_result_summary}

module _ (cfg : Config) (id : String) (result : Dict) where
  abbrev pub too_large : Bool
  too_large = ltb cfg.http_get_max (cfg.size (json (obj result)))

  -- What an answer says of the result: the result itself, or its summary if it is too large.
  abbrev Told : Bool → Dict → Type 0
  Told big job =
      (lookup "result" job ≡ (if big then none else some (obj result)))
      × (big ≡ true → lookup "result_summary" job ≡ some (obj (extract_result_summary result)))

  abbrev Answer : Dict → Type 0
  Answer job = Told too_large job

  inline-Answer :
      (job : Dict) (objects : Objects)
      → is_text (lookup "status" job) "expired" ≡ false
      → lookup "result" job ≡ some (obj result)
      → lookup "result_summary" job ≡ none
      → Answer (load_result_for_get cfg objects job)
  unfolding load_result_for_get
  inline-Answer job objects live h none_yet = elim (Bool-cases too_large) [
    | inl big ↦
        rw (live, h, big)
          (
            simp (lookup-set_default, lookup-delete),
            λ _. simp (lookup-set_default, lookup-delete, none_yet),
          )
    | inr fits ↦ rw (live, h, fits) (h, λ no. cc)
  ]

  large-Told :
      (job : Dict)
      → lookup "result" job ≡ none
      → lookup "result_summary" job ≡ some (obj (extract_result_summary result))
      → Told true (large cfg job (BlobPath.full_result id) (json (obj result)))
  large-Told job h k = elim (Bool-cases (holds (lookup "result_summary" job))) [
    | inl t ↦ rw t (h, λ _. k)
    | inr f ↦ rw f (simp (lookup-insert, h), λ _. simp lookup-insert)
  ]

  stored-Answer :
      (job : Dict) (objects : Objects)
      → is_text (lookup "status" job) "expired" ≡ false
      → lookup "result" job ≡ none
      → lookup "result_ref" job ≡ some (ref (BlobPath.full_result id))
      → lookup "result_summary" job ≡ some (obj (extract_result_summary result))
      → objects (BlobPath.full_result id) ≡ some (json (obj result))
      → Answer (load_result_for_get cfg objects job)
  unfolding load_result_for_get
  stored-Answer job objects live h r k o = elim (Bool-cases too_large) [
    | inl big ↦ rw (live, h, r, o, big) (large-Told job h k)
    | inr fits ↦ rw (live, h, r, o, fits) (simp lookup-insert, λ no. cc)
  ]

  -- A result that is stored for a job that has not expired is given back whole if it is no longer than
  -- an answer may be, inline or from its own document; and otherwise it is left out, with its summary
  -- in its place.
  pub load_result_for_get-persist_result :
      (meta : Dict) (objects : Objects)
      → is_text (lookup "status" meta) "expired" ≡ false
      → let (objects', meta') = persist_result cfg id meta (obj result) objects in
        let job = load_result_for_get cfg objects' meta' in
        (lookup "result" job ≡ (if too_large then none else some (obj result)))
        × (too_large ≡ true
            → lookup "result_summary" job ≡ some (obj (extract_result_summary result)))
  unfolding persist_result
  load_result_for_get-persist_result meta objects live =
      elim (Bool-cases (leb (cfg.size (json (obj result))) cfg.inline_max)) [
        | inl small ↦ rw small (
            inline-Answer _ _ (simp (lookup-insert, lookup-delete, live))
              (simp (lookup-insert, lookup-delete)) (simp lookup-delete))
        | inr big ↦ rw big (
            stored-Answer _ _ (simp (lookup-insert, lookup-delete, live))
              (simp (lookup-insert, lookup-delete)) (simp lookup-insert) (simp lookup-insert)
              (simp (eq_refl id)))
      ]
