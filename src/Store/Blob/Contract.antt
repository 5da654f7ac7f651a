-- ===== src/Store/Blob/Contract.antt =====
-- The store of app/adapters/secondary/vercel_blob_job_store.py fills the port and keeps its contract.
pub mod Expiry
use mathlib.Core.Path.{subst}
use automitizacion_hbi_capit.Base.{
  sym, ◌≢◌, ◌∙◌, arith, ◌<◌, refl, Option, none, eq_refl, Bool, ℕ, String, ◌≡◌, inl, inr, true,
  false, some, ◌==◌, if◌then◌else◌, Bool-cases, member, ap,
}
use automitizacion_hbi_capit.Json.{entry, empty, Value, BlobPath, text, Dict, text_of}
use automitizacion_hbi_capit.Json.Ops.{lookup-insert, is_unique, lookup, insert}
use automitizacion_hbi_capit.Locks.{iso_of, is_lock_expired}
use automitizacion_hbi_capit.Store.{JobStore, KeepsFields, job_field, shared_fields}
use automitizacion_hbi_capit.Store.Blob.{create_job, complete_job, fail_job, append_event}
use automitizacion_hbi_capit.Store.Blob.Locks.{
  acquire_lock, release_lock, is_lock_held, get_lock, cleanup_expired_lock,
}
use automitizacion_hbi_capit.Store.Blob.{
  Objects, persist_result, read_from, write_meta, BlobStore, Config, as_dict, meta_or_new,
  persist_update, read_meta, peek_job, update_job, get_job,
}
use automitizacion_hbi_capit.Store.Blob.Fields.{phase-IsPlain, status-IsPlain, IsPlain}
use automitizacion_hbi_capit.Store.Blob.Updates.{
  updated_meta, as_read, field-peek_job, has_expired, lookup-updated_meta, has_expired-update_job,
  shared_field-cases, new-not_expired, empty-not_expired,
}

abbrev pub blob_store : Config → JobStore BlobStore
blob_store cfg = record {
  now = λ s. s.now;
  create_job = create_job cfg;
  get_job = get_job cfg;
  update_job = update_job cfg;
  complete_job = complete_job cfg;
  fail_job = fail_job cfg;
  append_event = append_event;
  acquire_lock = acquire_lock;
  release_lock = release_lock;
  is_lock_held = is_lock_held;
  get_lock = get_lock;
  cleanup_expired_lock = cleanup_expired_lock;
}

module _ (cfg : Config) where
  stored-update_job :
      (s : BlobStore) (id : String) (u : Dict)
      → let s' = (update_job cfg id u s).1 in
        (as_dict (s'.objects (BlobPath.meta id)) ≡ some (updated_meta cfg s id u))
        × (s'.now ≡ s.now)
  unfolding update_job write_meta
  stored-update_job s id u = (rw (eq_refl id), refl)

  -- An expired job is read as `expired`. (A job that is not stored, or has no fields, is not one.)
  expired-stored :
      (s : BlobStore) (id : String) (stored : Option Dict)
      → as_dict (s.objects (BlobPath.meta id)) ≡ stored
      → is_lock_expired s.now
          (iso_of (lookup "expires_at" (meta_or_new id (read_from s.now stored))))
        ≡ true
      → job_field "status" (peek_job cfg s id) ≡ some "expired"
  expired-stored s id none e h = cc (new-not_expired s.now id)
  expired-stored s id (some empty) e h =
      let no : false ≡ true = rw (empty-not_expired s.now, new-not_expired s.now id) at h in cc
  expired-stored s id (some (entry k v d)) e h =
      elim (Bool-cases (is_lock_expired s.now (iso_of (lookup "expires_at" (entry k v d))))) [
        | inl x ↦
            field-peek_job cfg s id "status" (entry k v d) status-IsPlain e
            ∙ rw (x, lookup-insert "status" "status")
        | inr x ↦ let no : false ≡ true = rw (x, x) at h in cc
      ]

  expired-peek_job :
      (s : BlobStore) (id : String)
      → has_expired cfg s id ≡ true
      → job_field "status" (peek_job cfg s id) ≡ some "expired"
  unfolding read_meta
  expired-peek_job s id h = expired-stored s id (as_dict (s.objects (BlobPath.meta id))) refl h

  not_expired-peek_job :
      (s : BlobStore) (id : String)
      → job_field "status" (peek_job cfg s id) ≢ some "expired"
      → has_expired cfg s id ≡ false
  not_expired-peek_job s id fresh = elim (Bool-cases (has_expired cfg s id)) [
    | inl x ↦ absurd (fresh (expired-peek_job s id x))
    | inr x ↦ x
  ]

  -- The fields of a job after an update that leaves its expiry alone.
  field-updated :
      (s : BlobStore) (id k : String) (u : Dict)
      → IsPlain k
      → job_field k (peek_job cfg (update_job cfg id u s).1 id)
        ≡ some (text_of (lookup k (as_read cfg s.now (updated_meta cfg s id u))))
  field-updated s id k u plain =
      let (stored, same) = stored-update_job s id u in
      subst
        (λ n.
          job_field k (peek_job cfg (update_job cfg id u s).1 id)
          ≡ some (text_of (lookup k (as_read cfg n (updated_meta cfg s id u)))))
        same
        (field-peek_job cfg (update_job cfg id u s).1 id k (updated_meta cfg s id u) plain stored)

  -- A text that an update gives a field of the protocol.
  text-updated :
      (s : BlobStore) (id k : String) (u : Dict) (v : String)
      → member k shared_fields ≡ true
      → is_unique u ≡ true
      → lookup k u ≡ some (text v)
      → IsPlain k × (lookup k (updated_meta cfg s id u) ≡ some (text v))
  text-updated s id k u v m uniq h = elim (shared_field-cases k m) [
    | inl e ↦ rw e (
      status-IsPlain,
      lookup-updated_meta cfg s id "status" u (text v) status-IsPlain refl refl refl uniq
          (rw e at h),
    )
    | inr e ↦ rw e (
      phase-IsPlain,
      lookup-updated_meta cfg s id "execution_phase" u (text v) phase-IsPlain refl refl refl uniq
          (rw e at h),
    )
  ]

  module _ (days : 0 < cfg.ttl_days) where
    as_read-updated :
        (s : BlobStore) (id : String) (u : Dict) (expired : Bool)
        → is_unique u ≡ true
        → lookup "expires_at" u ≡ none
        → has_expired cfg s id ≡ expired
        → as_read cfg s.now (updated_meta cfg s id u) ≡ (
            if expired
            then insert "status" (text "expired") (updated_meta cfg s id u)
            else updated_meta cfg s id u)
    as_read-updated s id u expired uniq expiry e =
        rw (has_expired-update_job cfg days s id u uniq expiry, e)

    written-field :
        (s : BlobStore) (id k : String) (u : Dict) (v : String)
        → member k shared_fields ≡ true
        → has_expired cfg s id ≡ false
        → is_unique u ≡ true
        → lookup k u ≡ some (text v)
        → lookup "expires_at" u ≡ none
        → job_field k (peek_job cfg (update_job cfg id u s).1 id) ≡ some v
    written-field s id k u v m live uniq h expiry =
        let (plain, written) = text-updated s id k u v m uniq h in
        field-updated s id k u plain ∙ rw (as_read-updated s id u false uniq expiry live, written)

    expired-field :
        (s : BlobStore) (id : String) (u : Dict)
        → has_expired cfg s id ≡ true
        → is_unique u ≡ true
        → lookup "expires_at" u ≡ none
        → job_field "status" (peek_job cfg (update_job cfg id u s).1 id) ≡ some "expired"
    expired-field s id u old uniq expiry =
        field-updated s id "status" u status-IsPlain
        ∙ rw (as_read-updated s id u true uniq expiry old, lookup-insert "status" "status")

  -- The other jobs' documents stay.
  persist_update-other :
      (id j : String) (meta : Dict) (r : Option Value) (objects : Objects)
      → (persist_update cfg id meta r objects).0 (BlobPath.meta j) ≡ objects (BlobPath.meta j)
  unfolding persist_result
  persist_update-other id j meta r objects = ground arith

  meta-update_job_other :
      (s : BlobStore) (id j : String) (u : Dict)
      → (id == j) ≡ false
      → (update_job cfg id u s).1.objects (BlobPath.meta j) ≡ s.objects (BlobPath.meta j)
  unfolding update_job write_meta
  meta-update_job_other s id j u ne =
      rw ne
        (persist_update-other id j (meta_or_new id (read_meta id s)) (lookup "result" u) s.objects)

  abbrev field_view : String → ℕ → Option Dict → Option String
  field_view k now none = none
  field_view k now (some d) = some (text_of (lookup k (as_read cfg now d)))

  field-view :
      (s : BlobStore) (id k : String) (stored : Option Dict)
      → IsPlain k
      → as_dict (s.objects (BlobPath.meta id)) ≡ stored
      → job_field k (peek_job cfg s id) ≡ field_view k s.now stored
  unfolding peek_job
  field-view s id k none plain e = rw e
  field-view s id k (some d) plain e = field-peek_job cfg s id k d plain e

  field-update_job_other :
      (s : BlobStore) (id j k : String) (u : Dict)
      → IsPlain k
      → (id == j) ≡ false
      → job_field k (peek_job cfg (update_job cfg id u s).1 j) ≡ job_field k (peek_job cfg s j)
  field-update_job_other s id j k u plain ne =
      let s' = (update_job cfg id u s).1 in
      let same = (stored-update_job s id u).1 in
      field-view s' j k _ plain refl
      ∙ ap (λ o. field_view k s'.now (as_dict o)) (meta-update_job_other s id j u ne)
      ∙ ap (λ n. field_view k n (as_dict (s.objects (BlobPath.meta j)))) same
      ∙ sym (field-view s j k _ plain refl)

  shared-IsPlain : (k : String) → member k shared_fields ≡ true → IsPlain k
  shared-IsPlain k m = elim (shared_field-cases k m) [
    | inl e ↦ rw e status-IsPlain
    | inr e ↦ rw e phase-IsPlain
  ]

-- With at least a day to live.
pub blob-KeepsFields :
    (cfg : Config) → 0 < cfg.ttl_days → KeepsFields (blob_store cfg) (peek_job cfg)
unfolding get_job update_job
blob-KeepsFields cfg days = record {
  get_job-peek = λ s id. refl;
  update_job-ok = λ s id u. refl;
  field-update_job = λ s id k u v m fresh uniq h expiry.
      written-field cfg days s id k u v m (not_expired-peek_job cfg s id fresh) uniq h expiry;
  status-update_job_expired = λ s id u v old uniq h expiry.
      elim (Bool-cases (has_expired cfg s id)) [
        | inl x ↦ inl (expired-field cfg days s id u x uniq expiry)
        | inr x ↦ inr (written-field cfg days s id "status" u v refl x uniq h expiry)
      ];
  field-update_job_other =
      λ s id j k u m ne. field-update_job_other cfg s id j k u (shared-IsPlain cfg k m) ne;
}
