-- ===== src/Store/Blob/Locks.antt =====
-- The locks of app/adapters/secondary/vercel_blob_job_store.py. A client call is a step of its own:
-- `acquire_lock` is a check, a write and a second look, and another worker may act between them.
use Prim.Native.Char.{code}
use automitizacion_hbi_capit.Base.{
  ℕ, ◌+◌, ◌*◌, String, Bool, true, false, not, ◌&&◌, ◌||◌, Option, none, some, eqb, if◌then◌else◌,
}
use automitizacion_hbi_capit.Json.{BlobPath, obj, Dict, truthy, is_text}
use automitizacion_hbi_capit.Json.Ops.{lookup}
use automitizacion_hbi_capit.Locks.{
  iso_of, micros, is_lock_expired, has_text, should_relinquish_lock,
}
use automitizacion_hbi_capit.Effects.{ok, Act, pure, ◌>>=◌, ◌>>◌}
use automitizacion_hbi_capit.Store.Memory.{isoformat, lock_record}
use automitizacion_hbi_capit.Store.Blob.{BlobStore, json, as_dict, put, remove}

-- `lock_key.replace(":", "_").replace("/", "_")`
unfoldable pub safe_key : String → String
safe_key String.[] = String.[]
safe_key (String.◌∷◌ c s) =
    String.◌∷◌ (if eqb (code c) b':' || eqb (code c) b'/' then "_" else c) (safe_key s)

unfoldable pub lock_path : String → BlobPath
unfolding safe_key
lock_path key = BlobPath.lock (safe_key key)

unfoldable pub lock_at : String → BlobStore → Option Dict
unfolding lock_path
lock_at key s = as_dict (s.objects (lock_path key))

abbrev put_lock : String → Dict → BlobStore → BlobStore
unfolding lock_path
put_lock key d s = record s { objects = put (lock_path key) (json (obj d)) s.objects }

abbrev drop_lock : String → BlobStore → BlobStore
unfolding lock_path
drop_lock key s = record s { objects = remove (lock_path key) s.objects }

-- A lock in force that somebody else holds.
abbrev pub is_foreign : ℕ → String → Dict → Bool
is_foreign now holder existing =
    let expires_at = iso_of (lookup "expires_at" existing) in
    has_text expires_at
    && not (is_lock_expired now expires_at)
    && not (is_text (lookup "holder" existing) holder)

unfoldable pub acquire_check : String → String → Act BlobStore Bool
unfolding lock_at
acquire_check key holder s = elim (lock_at key s) [
  | none ↦ (ok true, s)
  | some existing ↦ (ok (not (is_foreign s.now holder existing)), s)
]

unfoldable pub acquire_write : String → String → ℕ → Act BlobStore (Unit {0})
unfolding lock_path
acquire_write key holder ttl_seconds s = (
  ok tt,
  put_lock key (lock_record key holder (isoformat s.now) (isoformat (s.now + ttl_seconds * micros)))
      s,
)

-- `if check and check.get("holder") != holder and not _is_expired(...)`
unfoldable pub acquire_verify : String → String → Act BlobStore Bool
unfolding lock_at
acquire_verify key holder s = elim (lock_at key s) [
  | none ↦ (ok true, s)
  | some check ↦ (
    ok (
        not (
          truthy (obj check)
          && not (is_text (lookup "holder" check) holder)
          && not (is_lock_expired s.now (iso_of (lookup "expires_at" check))))),
    s,
  )
]

unfoldable pub acquire_lock : String → String → ℕ → Act BlobStore Bool
unfolding acquire_check acquire_write acquire_verify
acquire_lock key holder ttl_seconds = do
  free ← acquire_check key holder
  if free then (acquire_write key holder ttl_seconds >> acquire_verify key holder) else pure false

unfoldable pub get_lock : String → Act BlobStore (Option Dict)
unfolding lock_at
get_lock key s = (ok (lock_at key s), s)

unfoldable pub cleanup_expired_lock : String → Act BlobStore Bool
unfolding lock_at lock_path
cleanup_expired_lock key s = elim (lock_at key s) [
  | none ↦ (ok false, s)
  | some existing ↦
      if should_relinquish_lock s.now s.lock_ttl existing
      then (ok true, drop_lock key s)
      else (ok false, s)
]

unfoldable pub release_lock : String → String → Act BlobStore (Unit {0})
unfolding lock_at lock_path
release_lock key holder s = elim (lock_at key s) [
  | none ↦ (ok tt, s)
  | some existing ↦
      if is_text (lookup "holder" existing) holder then (ok tt, drop_lock key s) else (ok tt, s)
]

unfoldable pub is_lock_held : String → Act BlobStore Bool
unfolding lock_at lock_path
is_lock_held key s = elim (lock_at key s) [
  | none ↦ (ok false, s)
  | some existing ↦
      if should_relinquish_lock s.now s.lock_ttl existing
      then (ok false, drop_lock key s)
      else (ok true, s)
]
