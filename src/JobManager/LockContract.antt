-- ===== src/JobManager/LockContract.antt =====
-- The locks of the payment validation as the job manager sees them: what the operations of the port
-- (app/domain/ports/job_store.py) do to the two locks, for every store.
use automitizacion_hbi_capit.Base.{
  ℕ, ◌+◌, ◌*◌, String, Bool, true, false, not, ◌≡◌, Option, none, some, if◌then◌else◌,
}
use automitizacion_hbi_capit.Json.{Dict, is_text}
use automitizacion_hbi_capit.Json.Ops.{lookup}
use automitizacion_hbi_capit.Locks.{micros, should_relinquish_lock}
use automitizacion_hbi_capit.Effects.{ok}
use automitizacion_hbi_capit.Store.{JobStore}
use automitizacion_hbi_capit.Store.Memory.{isoformat, lock_record}
use automitizacion_hbi_capit.JobManager.{lock_generate, lock_finalize}

pub data Which : Type 0 where
  generate finalize : Which

abbrev pub key_of : Which → String
key_of generate = lock_generate
key_of finalize = lock_finalize

-- The clock, the configured time to live, and the record under each of the two keys.
pub record LockView : Type 0 where
  pub now : ℕ
  pub ttl : ℕ
  pub generate_lock : Option Dict
  pub finalize_lock : Option Dict

abbrev pub lock_of : Which → LockView → Option Dict
lock_of generate v = v.generate_lock
lock_of finalize v = v.finalize_lock

abbrev pub with_lock : Which → Option Dict → LockView → LockView
with_lock generate d v = record v { generate_lock = d }
with_lock finalize d v = record v { finalize_lock = d }

-- A lock that is neither expired nor oversized.
abbrev pub in_force : ℕ → ℕ → Option Dict → Bool
in_force now ttl none = false
in_force now ttl (some d) = not (should_relinquish_lock now ttl d)

abbrev pub held : Which → LockView → Bool
held w v = in_force v.now v.ttl (lock_of w v)

abbrev pub keep_if : Bool → Option Dict → Option Dict
keep_if b d = if b then d else none

-- A lock that is no longer in force goes.
abbrev pub purge : Which → LockView → LockView
purge w v = with_lock w (keep_if (held w v) (lock_of w v)) v

abbrev pub grant : Which → String → ℕ → LockView → LockView
grant w holder seconds v =
    with_lock w
      (some
        (lock_record (key_of w) holder (isoformat v.now) (isoformat (v.now + seconds * micros))))
      v

abbrev pub held_by : String → Option Dict → Bool
held_by holder none = false
held_by holder (some d) = is_text (lookup "holder" d) holder

abbrev pub drop_of : Which → String → LockView → LockView
drop_of w holder v = with_lock w (keep_if (not (held_by holder (lock_of w v))) (lock_of w v)) v

-- What each operation returns and does to the view. `wait` lets time pass.
pub record KeepsLocks {S : Type 0} (st : JobStore S) (view : S → LockView) (wait : ℕ → S → S)
    : Type 0 where
  pub is_lock_held-view :
      (w : Which) (s : S)
      → ((st.is_lock_held (key_of w) s).0 ≡ ok (held w (view s)))
        × (view (st.is_lock_held (key_of w) s).1 ≡ purge w (view s))
  pub cleanup_expired_lock-view :
      (w : Which) (s : S)
      → (b : Bool) × ((st.cleanup_expired_lock (key_of w) s).0 ≡ ok b)
        × (view (st.cleanup_expired_lock (key_of w) s).1 ≡ purge w (view s))
  pub acquire_lock-view :
      (w : Which) (s : S) (holder : String) (seconds : ℕ)
      → lock_of w (view s) ≡ none
      → ((st.acquire_lock (key_of w) holder seconds s).0 ≡ ok true)
        × (view (st.acquire_lock (key_of w) holder seconds s).1 ≡ grant w holder seconds (view s))
  pub release_lock-view :
      (w : Which) (s : S) (holder : String)
      → ((st.release_lock (key_of w) holder s).0 ≡ ok tt)
        × (view (st.release_lock (key_of w) holder s).1 ≡ drop_of w holder (view s))
  pub wait-view : (t : ℕ) (s : S) → view (wait t s) ≡ record (view s) { now = (view s).now + t }
