-- ===== src/LockDiagnostics.antt =====
-- app/application/payment_validation_locks.py: the state of the two locks of the payment validation,
-- and their cleanup and release for the diagnostics routes. Both stores have `get_lock` and
-- `cleanup_expired_lock`.
pub mod Cleanup
use automitizacion_hbi_capit.Base.{
  ℕ, String, Bool, true, false, not, ◌&&◌, ◌||◌, Option, none, some, ◌==◌, if◌then◌else◌,
}
use automitizacion_hbi_capit.Base.Signed.{ℤ}
use automitizacion_hbi_capit.Json.{Value, text, obj, Dict, holds, truthy, text_of}
use automitizacion_hbi_capit.Json.Ops.{lookup}
use automitizacion_hbi_capit.Locks.{
  iso_of, is_lock_expired, is_legacy_oversized_lock, should_relinquish_lock,
  lock_granted_ttl_seconds, seconds_until_expiry,
}
use automitizacion_hbi_capit.Effects.{Result, ok, Act, pure, ◌>>=◌, ◌>>◌, gets}
use automitizacion_hbi_capit.Store.{JobStore}
use automitizacion_hbi_capit.JobManager.{
  JobManager, on_store, set_generate, set_finalize, lock_generate, lock_finalize, lock_holder,
}

-- The keys of a lock's view that are there only with a record.
pub record Granted : Type 0 where
  pub legacy_ttl_exceeded : Bool
  pub granted_ttl_seconds : Option ℤ
  pub configured_ttl_seconds : ℕ

pub record LockInfo : Type 0 where
  pub lock_key : String
  pub is_held : Bool
  pub holder : Option Value
  pub created_at : Option Value
  pub expires_at : Option Value
  pub expired : Bool
  pub remaining_seconds : Option ℤ
  pub granted : Option Granted

unfoldable pub lock_info : ℕ → ℕ → String → Option Dict → LockInfo
unfolding should_relinquish_lock
lock_info now ttl key none = record {
  lock_key = key;
  is_held = false;
  holder = none;
  created_at = none;
  expires_at = none;
  expired = false;
  remaining_seconds = none;
  granted = none;
}
lock_info now ttl key (some d) =
    let expires = lookup "expires_at" d in
    record {
      lock_key = key;
      is_held = not (should_relinquish_lock now ttl d) && holds (lookup "holder" d);
      holder = lookup "holder" d;
      created_at = lookup "created_at" d;
      expires_at = expires;
      expired = is_lock_expired now (iso_of expires);
      remaining_seconds = seconds_until_expiry now (iso_of expires);
      granted = some (record {
        legacy_ttl_exceeded = is_legacy_oversized_lock now ttl d;
        granted_ttl_seconds =
            lock_granted_ttl_seconds (iso_of (lookup "created_at" d)) (iso_of expires);
        configured_ttl_seconds = ttl;
      });
    }

-- What `detailed_lock_status` returns; the time to live and the holder are constants.
pub record DetailedStatus : Type 0 where
  pub locks_enabled : Bool
  pub generate_info : LockInfo
  pub finalize_info : LockInfo

pub record LockStatus : Type 0 where
  pub generate_lock_held : Bool
  pub finalize_lock_held : Bool

-- What the cleanup returns: the reason by each key that it cleaned, and the locks after it.
pub record Cleaned : Type 0 where
  pub generate_reason : Option String
  pub finalize_reason : Option String
  pub locks_after : DetailedStatus

pub data Release : Type 0 where
  refused : String → Release
  released : String → LockInfo → DetailedStatus → Release

-- `str(rec.get("holder") or _LOCK_HOLDER)`
abbrev pub holder_or_global : Dict → String
holder_or_global d = let h = text_of (lookup "holder" d) in if h == "" then lock_holder else h

abbrev pub relinquish_reason : ℕ → Dict → String
relinquish_reason now d =
    if is_lock_expired now (iso_of (lookup "expires_at" d))
    then "expired"
    else "legacy_ttl_exceeded"

module _ {S : Type 0} (st : JobStore S) (enabled : Bool) (ttl : ℕ) where
  -- `_lock_view(key, await _lock_record(key))`
  unfoldable pub look_up : String → Act (JobManager S) LockInfo
  unfolding lock_info
  look_up key = do
    found ← on_store (st.get_lock key)
    now ← gets (λ jm. st.now jm.store)
    pure (lock_info now ttl key found)

  unfoldable pub detailed_lock_status : Act (JobManager S) DetailedStatus
  unfolding look_up
  detailed_lock_status = do
    generate ← look_up lock_generate
    finalize ← look_up lock_finalize
    pure (record { locks_enabled = enabled; generate_info = generate; finalize_info = finalize })

  unfoldable pub lock_status : Act (JobManager S) LockStatus
  unfolding detailed_lock_status
  lock_status = do
    detailed ← detailed_lock_status
    pure (record {
      generate_lock_held = detailed.generate_info.is_held;
      finalize_lock_held = detailed.finalize_info.is_held;
    })

  -- One turn of the cleanup's loop with the record that it has read: the reason, if it cleans.
  unfoldable pub clean_found : String → ℕ → Option Dict → Act (JobManager S) (Option String)
  clean_found key now none = pure none
  clean_found key now (some d) =
      if not (truthy (obj d)) || not (should_relinquish_lock now ttl d) then pure none else (do
        done ← on_store (st.cleanup_expired_lock key)
        (if done then pure tt else on_store (st.release_lock key (holder_or_global d)))
        pure (some (relinquish_reason now d)))

  unfoldable pub clean_key : String → Act (JobManager S) (Option String)
  unfolding clean_found
  clean_key key = do
    found ← on_store (st.get_lock key)
    now ← gets (λ jm. st.now jm.store)
    clean_found key now found

  unfoldable pub cleanup_expired_payment_validation_locks : Act (JobManager S) Cleaned
  unfolding clean_key detailed_lock_status
  cleanup_expired_payment_validation_locks = do
    generate ← clean_key lock_generate
    finalize ← clean_key lock_finalize
    locks ← detailed_lock_status
    pure (record { generate_reason = generate; finalize_reason = finalize; locks_after = locks })

  unfoldable pub release_all_payment_validation_locks : Act (JobManager S) LockStatus
  unfolding lock_status
  release_all_payment_validation_locks = do
    on_store (st.release_lock lock_generate lock_holder)
    on_store (st.release_lock lock_finalize lock_holder)
    set_generate false
    set_finalize false
    lock_status

  -- `release_stale_lock_admin` after its two tests.
  unfoldable pub release_key : String → Act (JobManager S) Release
  unfolding look_up detailed_lock_status
  release_key key = do
    before ← look_up key
    on_store (st.release_lock key lock_holder)
    (if key == lock_generate then set_generate false else set_finalize false)
    locks ← detailed_lock_status
    pure (released key before locks)

  unfoldable pub release_stale_lock_admin : String → Bool → Act (JobManager S) Release
  unfolding release_key
  release_stale_lock_admin key confirm =
      if not confirm
      then pure (refused "confirm_required")
      else if not (key == lock_generate || key == lock_finalize)
      then pure (refused "invalid_lock_key")
      else release_key key
