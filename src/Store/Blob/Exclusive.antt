-- ===== src/Store/Blob/Exclusive.antt =====
-- The locks under Blob (app/adapters/secondary/vercel_blob_job_store.py) keep the job manager's contract.
use automitizacion_hbi_capit.Json.Ops.{lookup}
use automitizacion_hbi_capit.Locks.{should_relinquish_lock}
use automitizacion_hbi_capit.Store.Blob.Contract.{blob_store}
use automitizacion_hbi_capit.Base.{
  eq_refl, refl, true, some, none, false, String, Bool, arith, ℕ, ◌+◌, ◌≡◌, Option,
}
use automitizacion_hbi_capit.Json.{Dict}
use automitizacion_hbi_capit.Effects.{ok}
use automitizacion_hbi_capit.Store.Blob.{BlobStore, Config}
use automitizacion_hbi_capit.Store.Blob.Locks.{
  acquire_verify, acquire_check, acquire_write, safe_key, lock_at, lock_path, acquire_lock,
  release_lock, is_lock_held, cleanup_expired_lock,
}
use automitizacion_hbi_capit.JobManager.{lock_generate, lock_finalize}
use automitizacion_hbi_capit.JobManager.LockContract.{
  grant, lock_of, drop_of, KeepsLocks, Which, generate, finalize, key_of, LockView, held, purge,
}

abbrev pub blob_view : BlobStore → LockView
unfolding lock_at
blob_view s = record {
  now = s.now;
  ttl = s.lock_ttl;
  generate_lock = lock_at lock_generate s;
  finalize_lock = lock_at lock_finalize s;
}

abbrev pub blob_wait : ℕ → BlobStore → BlobStore
blob_wait t s = record s { now = s.now + t }

abbrev is_stale : ℕ → ℕ → Option Dict → Bool
is_stale now ttl none = false
is_stale now ttl (some d) = should_relinquish_lock now ttl d

held_lem :
    (w : Which) (s : BlobStore)
    → ((is_lock_held (key_of w) s).0 ≡ ok (held w (blob_view s)))
      × (blob_view (is_lock_held (key_of w) s).1 ≡ purge w (blob_view s))
unfolding is_lock_held lock_at lock_path
held_lem generate s = ground arith
held_lem finalize s = ground arith

cleanup_lem :
    (w : Which) (s : BlobStore)
    → (b : Bool) × ((cleanup_expired_lock (key_of w) s).0 ≡ ok b)
      × (blob_view (cleanup_expired_lock (key_of w) s).1 ≡ purge w (blob_view s))
unfolding cleanup_expired_lock lock_at lock_path
cleanup_lem generate s =
    (is_stale s.now s.lock_ttl (lock_of generate (blob_view s)), ground arith, ground arith)
cleanup_lem finalize s =
    (is_stale s.now s.lock_ttl (lock_of finalize (blob_view s)), ground arith, ground arith)

check_free :
    (key holder : String) (s : BlobStore)
    → lock_at key s ≡ none
    → acquire_check key holder s ≡ (ok true, s)
unfolding acquire_check
check_free key holder s h = rw (h, acquire_check)

verify_own :
    (key holder : String) (seconds : ℕ) (s : BlobStore)
    → let s' = (acquire_write key holder seconds s).1 in
      acquire_verify key holder s' ≡ (ok true, s')
unfolding acquire_verify acquire_write lookup
verify_own key holder seconds s = ground (arith, eq_refl (safe_key key), eq_refl holder)

acquire_free :
    (key holder : String) (seconds : ℕ) (s : BlobStore)
    → lock_at key s ≡ none
    → acquire_lock key holder seconds s ≡ (ok true, (acquire_write key holder seconds s).1)
unfolding acquire_lock lock_at lock_path
acquire_free key holder seconds s h =
    rw (check_free key holder s h) (verify_own key holder seconds s)

acquire_lem :
    (w : Which) (s : BlobStore) (holder : String) (seconds : ℕ)
    → lock_of w (blob_view s) ≡ none
    → ((acquire_lock (key_of w) holder seconds s).0 ≡ ok true)
      × (blob_view (acquire_lock (key_of w) holder seconds s).1
          ≡ grant w holder seconds (blob_view s))
unfolding lock_at acquire_write safe_key
acquire_lem generate s holder seconds h =
    rw (acquire_free lock_generate holder seconds s h) (refl, refl)
acquire_lem finalize s holder seconds h =
    rw (acquire_free lock_finalize holder seconds s h) (refl, refl)

release_lem :
    (w : Which) (s : BlobStore) (holder : String)
    → ((release_lock (key_of w) holder s).0 ≡ ok tt)
      × (blob_view (release_lock (key_of w) holder s).1 ≡ drop_of w holder (blob_view s))
unfolding release_lock lock_at lock_path
release_lem generate s holder = ground arith
release_lem finalize s holder = ground arith

-- The locks under Blob do what the job manager relies on.
pub blob-KeepsLocks : (cfg : Config) → KeepsLocks (blob_store cfg) blob_view blob_wait
unfolding lock_at
blob-KeepsLocks cfg = record {
  is_lock_held-view = held_lem;
  cleanup_expired_lock-view = cleanup_lem;
  acquire_lock-view = acquire_lem;
  release_lock-view = release_lem;
  wait-view = λ t s. refl;
}
