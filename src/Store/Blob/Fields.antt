-- ===== src/Store/Blob/Fields.antt =====
-- What the fields of a job are after app/adapters/secondary/vercel_blob_job_store.py has written it.
use automitizacion_hbi_capit.Base.{
  String, ◌≡◌, refl, inl, inr, false, Option, none, some, ◌==◌, leb, ltb, Bool-cases,
}
use automitizacion_hbi_capit.Json.{holds, BlobPath, Value, null, obj, Dict, truthy, is_text}
use automitizacion_hbi_capit.Json.Ops.{
  lookup, insert, delete, set_default, lookup-insert, lookup-delete, lookup-set_default,
}
use automitizacion_hbi_capit.Store.Blob.{
  load_found, is_full, path_of, large, load_by, BlobObject, load_inline, Config, Objects, json,
  persist_result, persist_update, load_result_for_get,
}

-- A field that neither the result's storage nor the store's own book-keeping touches.
pub record IsPlain (k : String) : Type 0 where
  pub result : ("result" == k) ≡ false
  pub result_ref : ("result_ref" == k) ≡ false
  pub result_summary : ("result_summary" == k) ≡ false

pub status-IsPlain : IsPlain "status"
status-IsPlain = record { result = refl; result_ref = refl; result_summary = refl }

pub expires_at-IsPlain : IsPlain "expires_at"
expires_at-IsPlain = record { result = refl; result_ref = refl; result_summary = refl }

pub phase-IsPlain : IsPlain "execution_phase"
phase-IsPlain = record { result = refl; result_ref = refl; result_summary = refl }

module _ (cfg : Config) (k : String) (plain : IsPlain k) where
  pub lookup-persist_result :
      (id : String) (meta : Dict) (v : Value) (objects : Objects)
      → lookup k (persist_result cfg id meta v objects).1 ≡ lookup k meta
  unfolding persist_result
  lookup-persist_result id meta null objects =
      simp (lookup-insert, lookup-delete, plain.result, plain.result_ref, plain.result_summary)
  lookup-persist_result id meta (obj d) objects =
      elim (Bool-cases (leb (cfg.size (json (obj d))) cfg.inline_max)) [
        | inl c ↦ rw c (
            simp
              (lookup-insert, lookup-delete, plain.result, plain.result_ref, plain.result_summary))
        | inr c ↦ rw c (
            simp
              (lookup-insert, lookup-delete, plain.result, plain.result_ref, plain.result_summary))
      ]
  lookup-persist_result id meta v objects =
      simp (lookup-insert, lookup-delete, plain.result, plain.result_ref, plain.result_summary)

  pub lookup-persist_update :
      (id : String) (meta : Dict) (r : Option Value) (objects : Objects)
      → lookup k (persist_update cfg id meta r objects).1 ≡ lookup k meta
  lookup-persist_update id meta none objects = refl
  lookup-persist_update id meta (some v) objects = lookup-persist_result id meta v objects

  lookup-insert_plain :
      (j : String) (v : Value) (d : Dict) → (j == k) ≡ false → lookup k (insert j v d) ≡ lookup k d
  lookup-insert_plain j v d h = rw (lookup-insert j k v d, h)

  lookup-large :
      (job : Dict) (path : BlobPath) (o : BlobObject)
      → lookup k (large cfg job path o) ≡ lookup k job
  lookup-large job path (json (obj full)) =
      elim (Bool-cases (holds (lookup "result_summary" job))) [
        | inl c ↦ rw c
        | inr c ↦ elim (Bool-cases (is_full path)) [
          | inl f ↦ rw (c, f) (lookup-insert_plain "result_summary" _ job plain.result_summary)
          | inr f ↦ rw (c, f)
        ]
      ]
  lookup-large job path (json null) = refl
  lookup-large job path _ = refl

  lookup-load_found :
      (job : Dict) (path : BlobPath) (o : Option BlobObject)
      → lookup k (load_found cfg job path o) ≡ lookup k job
  lookup-load_found job path none = refl
  lookup-load_found job path (some o) = elim (Bool-cases (ltb cfg.http_get_max (cfg.size o))) [
    | inl c ↦ rw c (lookup-large job path o)
    | inr c ↦ rw c (lookup-insert_plain "result" _ job plain.result)
  ]

  lookup-load_by :
      (r : Option Value) (objects : Objects) (job : Dict)
      → lookup k (load_by cfg r objects job) ≡ lookup k job
  lookup-load_by none objects job = refl
  lookup-load_by (some v) objects job = elim (Bool-cases (truthy v)) [
    | inl c ↦ rw c (lookup-load_found job (path_of v) (objects (path_of v)))
    | inr c ↦ rw c
  ]

  lookup-too_large :
      (job summary : Dict)
      → lookup k (set_default "result_summary" (obj summary) (delete "result" job)) ≡ lookup k job
  lookup-too_large job summary = rw (
    lookup-set_default "result_summary" k (obj summary) (delete "result" job),
    plain.result_summary,
    lookup-delete "result" k job,
    plain.result,
  )

  lookup-load_inline :
      (r : Option Value) (objects : Objects) (job : Dict)
      → lookup k (load_inline cfg r objects job) ≡ lookup k job
  lookup-load_inline none objects job = lookup-load_by (lookup "result_ref" job) objects job
  lookup-load_inline (some null) objects job = lookup-load_by (lookup "result_ref" job) objects job
  lookup-load_inline (some v) objects job =
      elim (Bool-cases (ltb cfg.http_get_max (cfg.size (json v)))) [
        | inl c ↦ rw c (lookup-too_large job _)
        | inr c ↦ rw c
      ]

  pub lookup-load_result_for_get :
      (objects : Objects) (meta : Dict)
      → lookup k (load_result_for_get cfg objects meta) ≡ lookup k meta
  unfolding load_result_for_get
  lookup-load_result_for_get objects meta =
      elim (Bool-cases (is_text (lookup "status" meta) "expired")) [
        | inl c ↦ rw c
        | inr c ↦ rw c (lookup-load_inline (lookup "result" meta) objects meta)
      ]
