-- ===== src/Store/Blob/Updates.antt =====
-- What `update_job` of app/adapters/secondary/vercel_blob_job_store.py stores, and how it is read.
use automitizacion_hbi_capit.Base.{
  arith, ◌<◌, refl, Option, or_else, none, Bool, ℕ, String, ◌≡◌, ◌⊎◌, inl, inr, true, false, some,
  ◌==◌, if◌then◌else◌, eq→≡, Bool-cases, member, ap,
}
use automitizacion_hbi_capit.Json.{entry, empty, Value, BlobPath, text, Dict, text_of}
use automitizacion_hbi_capit.Json.Ops.{
  lookup-delete, is_unique-delete, lookup-update_unique, lookup-insert, lookup-set_default,
  is_unique, lookup, insert, delete, update, set_default,
}
use automitizacion_hbi_capit.Locks.{iso_of, is_lock_expired}
use automitizacion_hbi_capit.Store.Memory.{isoformat}
use automitizacion_hbi_capit.Store.{job_field, shared_fields}
use automitizacion_hbi_capit.Store.Blob.{
  BlobStore, Config, as_dict, meta_or_new, persist_update, compute_expires_at, read_meta, peek_job,
}
use automitizacion_hbi_capit.Store.Blob.Fields.{
  expires_at-IsPlain, lookup-persist_update, IsPlain, lookup-load_result_for_get,
}

pub shared_field-cases :
    (k : String) → member k shared_fields ≡ true → (k ≡ "status") ⊎ (k ≡ "execution_phase")
shared_field-cases k h = elim (Bool-cases (k == "status")) [
  | inl e ↦ inl (eq→≡ k "status" e)
  | inr n ↦ elim (Bool-cases (k == "execution_phase")) [
    | inl e ↦ inr (eq→≡ k "execution_phase" e)
    | inr m ↦ let no : false ≡ true = rw (n, m) at h in cc
  ]
]

pub new-not_expired :
    (now : ℕ) (id : String)
    → is_lock_expired now (iso_of (lookup "expires_at" (entry "job_id" (text id) empty))) ≡ false
unfolding lookup is_lock_expired
new-not_expired now id = refl

pub empty-not_expired : (now : ℕ) → is_lock_expired now (iso_of (lookup "expires_at" empty)) ≡ false
unfolding lookup is_lock_expired
empty-not_expired now = refl

module _ (cfg : Config) where
  -- The document that `write_meta` stores.
  abbrev stored_meta : String → Dict → ℕ → Dict
  stored_meta id meta now =
      set_default "expires_at" (compute_expires_at now cfg.ttl_days)
        (set_default "updated_at" (isoformat now) (set_default "job_id" (text id) meta))

  -- The document that `update_job` stores.
  abbrev pub updated_meta : BlobStore → String → Dict → Dict
  updated_meta s id u =
      let meta = meta_or_new id (read_meta id s) in
      let m = (persist_update cfg id meta (lookup "result" u) s.objects).1 in
      stored_meta id (insert "updated_at" (isoformat s.now) (update m (delete "result" u))) s.now

  -- What `_read_meta` makes of a stored document.
  abbrev pub as_read : ℕ → Dict → Dict
  as_read now meta =
      if is_lock_expired now (iso_of (lookup "expires_at" meta))
      then insert "status" (text "expired") meta
      else meta

  pub field-peek_job :
      (s : BlobStore) (id k : String) (meta : Dict)
      → IsPlain k
      → as_dict (s.objects (BlobPath.meta id)) ≡ some meta
      → job_field k (peek_job cfg s id) ≡ some (text_of (lookup k (as_read s.now meta)))
  unfolding peek_job
  field-peek_job s id k meta plain e =
      elim (Bool-cases (is_lock_expired s.now (iso_of (lookup "expires_at" meta)))) [
        | inl x ↦
            rw (e, x) (ap some (ap text_of (lookup-load_result_for_get cfg k plain s.objects _)))
        | inr x ↦
            rw (e, x) (ap some (ap text_of (lookup-load_result_for_get cfg k plain s.objects _)))
      ]

  -- Whether the job's time has run out, as an update finds it.
  abbrev pub has_expired : BlobStore → String → Bool
  has_expired s id =
      is_lock_expired s.now (iso_of (lookup "expires_at" (meta_or_new id (read_meta id s))))

  lookup-stored_meta :
      (id k : String) (d : Dict) (now : ℕ)
      → ("job_id" == k) ≡ false
      → ("updated_at" == k) ≡ false
      → ("expires_at" == k) ≡ false
      → lookup k (stored_meta id d now) ≡ lookup k d
  lookup-stored_meta id k d now a b c = simp (lookup-set_default, a, b, c)

  pub lookup-updated_meta :
      (s : BlobStore) (id k : String) (u : Dict) (v : Value)
      → IsPlain k
      → ("job_id" == k) ≡ false
      → ("updated_at" == k) ≡ false
      → ("expires_at" == k) ≡ false
      → is_unique u ≡ true
      → lookup k u ≡ some v
      → lookup k (updated_meta s id u) ≡ some v
  lookup-updated_meta s id k u v plain a b c uniq h = rw (
    lookup-stored_meta id k _ s.now a b c,
    lookup-insert "updated_at" k _ _,
    b,
    lookup-update_unique _ (delete "result" u) k (is_unique-delete "result" u uniq),
    lookup-delete "result" k u,
    plain.result,
    h,
  )

  expiry-updated_meta :
      (s : BlobStore) (id : String) (u : Dict)
      → is_unique u ≡ true
      → lookup "expires_at" u ≡ none
      → lookup "expires_at" (updated_meta s id u)
        ≡ or_else
            (lookup "expires_at" (meta_or_new id (read_meta id s)))
            (some (compute_expires_at s.now cfg.ttl_days))
  expiry-updated_meta s id u uniq h = simp (
    lookup-set_default,
    lookup-insert,
    lookup-update_unique _ (delete "result" u) "expires_at" (is_unique-delete "result" u uniq),
    lookup-delete,
    h,
    lookup-persist_update cfg "expires_at" expires_at-IsPlain,
  )

  module _ (days : 0 < cfg.ttl_days) where
    or_fresh-expired :
        (now : ℕ) (e : Option Value)
        → is_lock_expired now (iso_of (or_else e (some (compute_expires_at now cfg.ttl_days))))
          ≡ is_lock_expired now (iso_of e)
    unfolding is_lock_expired
    or_fresh-expired now none = ground arith
    or_fresh-expired now (some v) = refl

    pub has_expired-update_job :
        (s : BlobStore) (id : String) (u : Dict)
        → is_unique u ≡ true
        → lookup "expires_at" u ≡ none
        → is_lock_expired s.now (iso_of (lookup "expires_at" (updated_meta s id u)))
          ≡ has_expired s id
    has_expired-update_job s id u uniq h =
        rw (expiry-updated_meta s id u uniq h)
          (or_fresh-expired s.now (lookup "expires_at" (meta_or_new id (read_meta id s))))
