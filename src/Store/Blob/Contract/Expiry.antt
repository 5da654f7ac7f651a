-- ===== src/Store/Blob/Contract/Expiry.antt =====
-- When a job under app/adapters/secondary/vercel_blob_job_store.py is read as expired.
use automitizacion_hbi_capit.Base.{
  ◌<◌, ◌+◌, refl, none, ℕ, String, ◌≡◌, ◌∙◌, inl, inr, true, some, if◌then◌else◌, Bool-cases, ap,
  leb, ◌==◌,
}
use automitizacion_hbi_capit.Json.{Value, entry, empty, BlobPath, text, iso, aware, Dict, text_of}
use automitizacion_hbi_capit.Json.Ops.{lookup-insert, is_unique, lookup, insert}
use automitizacion_hbi_capit.Locks.{iso_of, is_lock_expired, parse_expires_at}
use automitizacion_hbi_capit.Store.{KeepsFields, job_field}
use automitizacion_hbi_capit.Store.Blob.{
  BlobStore, Config, as_dict, meta_or_new, read_meta, peek_job, update_job,
}
use automitizacion_hbi_capit.Store.Blob.Fields.{status-IsPlain}
use automitizacion_hbi_capit.Store.Blob.Updates.{field-peek_job, has_expired}
use automitizacion_hbi_capit.Store.Blob.Contract.{
  blob_store, written-field, expired-field, blob-KeepsFields,
}

-- The store when `t` microseconds have passed.
abbrev pub job_wait : ℕ → BlobStore → BlobStore
job_wait t s = record s { now = s.now + t }

is_lock_expired-aware :
    (now e : ℕ) (d : Dict)
    → lookup "expires_at" d ≡ some (iso (aware e))
    → is_lock_expired now (iso_of (lookup "expires_at" d)) ≡ leb e now
unfolding is_lock_expired parse_expires_at
is_lock_expired-aware now e d h = rw h refl

found-insert :
    (id k k' : String) (v v' : Value) (d : Dict)
    → meta_or_new id (some (insert k' v' (entry k v d))) ≡ insert k' v' (entry k v d)
unfolding insert
found-insert id k k' v v' d = elim (Bool-cases (k == k')) [ inl h ↦ rw h refl | inr h ↦ rw h refl ]

module _ (cfg : Config) (id : String) (e : ℕ) where
  has_expired-aware :
      (s : BlobStore) (d : Dict)
      → as_dict (s.objects (BlobPath.meta id)) ≡ some d
      → lookup "expires_at" d ≡ some (iso (aware e))
      → has_expired cfg s id ≡ leb e s.now
  unfolding read_meta lookup
  has_expired-aware s empty o h = absurd (cc h)
  has_expired-aware s (entry k v d) o h =
      let x = is_lock_expired-aware s.now e (entry k v d) h in
      elim (Bool-cases (leb e s.now)) [
        | inl y ↦
            rw (o, x, y)
              (ap (λ m. is_lock_expired s.now (iso_of (lookup "expires_at" m)))
                  (found-insert id k "status" v (text "expired") d)
                ∙ ap (λ q. is_lock_expired s.now (iso_of q))
                    (lookup-insert "status" "expires_at" (text "expired") (entry k v d))
                ∙ x
                ∙ y)
        | inr y ↦ rw (o, x, y) (x ∙ y)
      ]

  status-peek_job :
      (s : BlobStore) (d : Dict)
      → as_dict (s.objects (BlobPath.meta id)) ≡ some d
      → lookup "expires_at" d ≡ some (iso (aware e))
      → job_field "status" (peek_job cfg s id)
        ≡ some (if leb e s.now then "expired" else text_of (lookup "status" d))
  status-peek_job s d o h =
      let x = is_lock_expired-aware s.now e d h in
      field-peek_job cfg s id "status" d status-IsPlain o ∙ elim (Bool-cases (leb e s.now)) [
        | inl y ↦ rw (x, y, lookup-insert "status" "status")
        | inr y ↦ rw (x, y)
      ]

  module _ (days : 0 < cfg.ttl_days) where
    status-update_job :
        (s : BlobStore) (d u : Dict) (v : String)
        → as_dict (s.objects (BlobPath.meta id)) ≡ some d
        → lookup "expires_at" d ≡ some (iso (aware e))
        → is_unique u ≡ true
        → lookup "status" u ≡ some (text v)
        → lookup "expires_at" u ≡ none
        → job_field "status" (peek_job cfg (update_job cfg id u s).1 id)
          ≡ some (if leb e s.now then "expired" else v)
    status-update_job s d u v o h uniq w n =
        let x = has_expired-aware s d o h in
        elim (Bool-cases (leb e s.now)) [
          | inl y ↦ rw y (expired-field cfg days s id u (x ∙ y) uniq n)
          | inr y ↦ rw y (written-field cfg days s id "status" u v refl (x ∙ y) uniq w n)
        ]

-- With at least a day to live, jobs under Blob keep the contract. A stored job that expires at the
-- instant `e` is read `t` microseconds later with its own status if that is before `e`, and as `expired`
-- from `e` on; a status that is written then is read back before `e`, and from `e` on the job is
-- `expired` whatever is written, the expiry apart.
pub blob-Expires :
    (cfg : Config) (s : BlobStore) (id : String) (d u : Dict) (v : String) (e t : ℕ)
    → 0 < cfg.ttl_days
    → as_dict (s.objects (BlobPath.meta id)) ≡ some d
    → lookup "expires_at" d ≡ some (iso (aware e))
    → is_unique u ≡ true
    → lookup "status" u ≡ some (text v)
    → lookup "expires_at" u ≡ none
    → KeepsFields (blob_store cfg) (peek_job cfg)
      × (job_field "status" (peek_job cfg (job_wait t s) id)
          ≡ some (if leb e (s.now + t) then "expired" else text_of (lookup "status" d)))
      × (job_field "status" (peek_job cfg (update_job cfg id u (job_wait t s)).1 id)
          ≡ some (if leb e (s.now + t) then "expired" else v))
blob-Expires cfg s id d u v e t days o h uniq w n = (
  blob-KeepsFields cfg days,
  status-peek_job cfg id e (job_wait t s) d o h,
  status-update_job cfg id e days (job_wait t s) d u v o h uniq w n,
)
