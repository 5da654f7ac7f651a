-- ===== src/Store/Memory/Exclusive.antt =====
-- The locks in memory (app/adapters/secondary/memory_job_store.py) keep the job manager's contract.
use automitizacion_hbi_capit.Locks.{should_relinquish_lock}
use automitizacion_hbi_capit.Store.Memory.Contract.{memory_store}
use automitizacion_hbi_capit.Base.{
  refl, true, some, none, false, String, Bool, arith, ℕ, ◌+◌, ◌≡◌, Option,
}
use automitizacion_hbi_capit.Json.{Dict}
use automitizacion_hbi_capit.Effects.{ok}
use automitizacion_hbi_capit.Store.Memory.{
  MemoryJobStore, acquire_lock, release_lock, is_lock_held, cleanup_expired_lock,
}
use automitizacion_hbi_capit.JobManager.{lock_generate, lock_finalize}
use automitizacion_hbi_capit.JobManager.LockContract.{
  grant, drop_of, lock_of, KeepsLocks, Which, generate, finalize, key_of, LockView, held, purge,
}

abbrev pub memory_view : MemoryJobStore → LockView
memory_view s = record {
  now = s.now;
  ttl = s.ttl;
  generate_lock = s.locks lock_generate;
  finalize_lock = s.locks lock_finalize;
}

abbrev pub memory_wait : ℕ → MemoryJobStore → MemoryJobStore
memory_wait t s = record s { now = s.now + t }

abbrev is_stale : ℕ → ℕ → Option Dict → Bool
is_stale now ttl none = false
is_stale now ttl (some d) = should_relinquish_lock now ttl d

held_lem :
    (w : Which) (s : MemoryJobStore)
    → ((is_lock_held (key_of w) s).0 ≡ ok (held w (memory_view s)))
      × (memory_view (is_lock_held (key_of w) s).1 ≡ purge w (memory_view s))
unfolding is_lock_held
held_lem generate s = ground arith
held_lem finalize s = ground arith

cleanup_lem :
    (w : Which) (s : MemoryJobStore)
    → (b : Bool) × ((cleanup_expired_lock (key_of w) s).0 ≡ ok b)
      × (memory_view (cleanup_expired_lock (key_of w) s).1 ≡ purge w (memory_view s))
unfolding cleanup_expired_lock
cleanup_lem generate s =
    (is_stale s.now s.ttl (lock_of generate (memory_view s)), ground arith, ground arith)
cleanup_lem finalize s =
    (is_stale s.now s.ttl (lock_of finalize (memory_view s)), ground arith, ground arith)

acquire_lem :
    (w : Which) (s : MemoryJobStore) (holder : String) (seconds : ℕ)
    → lock_of w (memory_view s) ≡ none
    → ((acquire_lock (key_of w) holder seconds s).0 ≡ ok true)
      × (memory_view (acquire_lock (key_of w) holder seconds s).1
          ≡ grant w holder seconds (memory_view s))
unfolding acquire_lock
acquire_lem generate s holder seconds h = ground arith
acquire_lem finalize s holder seconds h = ground arith

release_lem :
    (w : Which) (s : MemoryJobStore) (holder : String)
    → ((release_lock (key_of w) holder s).0 ≡ ok tt)
      × (memory_view (release_lock (key_of w) holder s).1 ≡ drop_of w holder (memory_view s))
unfolding release_lock
release_lem generate s holder = ground arith
release_lem finalize s holder = ground arith

-- The locks in memory do what the job manager relies on.
pub memory-KeepsLocks : KeepsLocks memory_store memory_view memory_wait
memory-KeepsLocks = record {
  is_lock_held-view = held_lem;
  cleanup_expired_lock-view = cleanup_lem;
  acquire_lock-view = acquire_lem;
  release_lock-view = release_lem;
  wait-view = λ t s. refl;
}
