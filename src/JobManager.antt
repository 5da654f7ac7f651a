-- ===== src/JobManager.antt =====
-- app/application/job_manager.py: the facade over the store, and the two locks of the payment
-- validation (app/application/job_store_factory.py names them).
pub mod LockContract
pub mod Purged
pub mod Start
pub mod Exclusion
use automitizacion_hbi_capit.Base.{ℕ, String, Bool, true, false, Option, if◌then◌else◌}
use automitizacion_hbi_capit.Json.{Dict}
use automitizacion_hbi_capit.Effects.{Result, Act, pure, ◌>>=◌, ◌>>◌}
use automitizacion_hbi_capit.Store.{JobStore}

abbrev pub lock_generate : String
lock_generate = "payment_validation:generate"

abbrev pub lock_finalize : String
lock_finalize = "payment_validation:finalize"

abbrev pub lock_holder : String
lock_holder = "global"

-- The singleton, with the store that `get_job_store` returns.
pub record JobManager (S : Type 0) : Type 0 where
  pub store : S
  pub generate_active : Bool
  pub finalize_active : Bool

-- A call of the store.
abbrev pub on_store : {S A : Type 0} → Act S A → Act (JobManager S) A
on_store m jm = let r = m jm.store in (r.0, record jm { store = r.1 })

abbrev pub set_generate : {S : Type 0} → Bool → Act (JobManager S) (Unit {0})
set_generate b jm = (Result.ok tt, record jm { generate_active = b })

abbrev pub set_finalize : {S : Type 0} → Bool → Act (JobManager S) (Unit {0})
set_finalize b jm = (Result.ok tt, record jm { finalize_active = b })

-- `locks_enabled` is what `payment_validation_locks_enabled` reads, `ttl` what `lock_ttl_seconds` does.
module _ {S : Type 0} (st : JobStore S) (locks_enabled : Bool) (ttl : ℕ) where
  unfoldable pub set_job : String → Dict → Act (JobManager S) (Unit {0})
  set_job id updates = on_store (st.update_job id updates)

  unfoldable pub get_job : String → Act (JobManager S) (Option Dict)
  get_job id = on_store (st.get_job id)

  unfoldable pub release_all_payment_validation_locks : Act (JobManager S) (Unit {0})
  release_all_payment_validation_locks = do
    on_store (st.release_lock lock_generate lock_holder)
    on_store (st.release_lock lock_finalize lock_holder)
    set_generate false
    set_finalize false

  -- Both stores have `cleanup_expired_lock`.
  unfoldable pub purge_expired_locks : Act (JobManager S) (Unit {0})
  purge_expired_locks = do
    _ ← on_store (st.cleanup_expired_lock lock_generate)
    _ ← on_store (st.cleanup_expired_lock lock_finalize)
    pure tt

  -- `await is_lock_held(generate) or await is_lock_held(finalize)`
  unfoldable pub any_lock_held : Act (JobManager S) Bool
  any_lock_held = do
    generate ← on_store (st.is_lock_held lock_generate)
    if generate then pure true else on_store (st.is_lock_held lock_finalize)

  -- `try_start_generate` after its test of both locks.
  unfoldable pub generate_unless : Bool → Act (JobManager S) Bool
  generate_unless true = do
    set_generate false
    finalize ← on_store (st.is_lock_held lock_finalize)
    set_finalize finalize
    pure false
  generate_unless false = do
    acquired ← on_store (st.acquire_lock lock_generate lock_holder ttl)
    set_generate acquired
    pure acquired

  unfoldable pub try_start_generate : Act (JobManager S) Bool
  unfolding release_all_payment_validation_locks purge_expired_locks any_lock_held generate_unless
  try_start_generate =
      if locks_enabled
      then (purge_expired_locks >> any_lock_held >>= generate_unless)
      else (release_all_payment_validation_locks >> pure true)

  -- Both branches of the source do the same.
  unfoldable pub finish_generate : Act (JobManager S) (Unit {0})
  finish_generate = do on_store (st.release_lock lock_generate lock_holder); set_generate false

  -- `try_start_finalize` after its test of both locks.
  unfoldable pub finalize_unless : Bool → Act (JobManager S) Bool
  finalize_unless true = do
    set_finalize false
    generate ← on_store (st.is_lock_held lock_generate)
    set_generate generate
    pure false
  finalize_unless false = do
    acquired ← on_store (st.acquire_lock lock_finalize lock_holder ttl)
    set_finalize acquired
    pure acquired

  unfoldable pub try_start_finalize : Act (JobManager S) Bool
  unfolding release_all_payment_validation_locks purge_expired_locks any_lock_held finalize_unless
  try_start_finalize =
      if locks_enabled
      then (purge_expired_locks >> any_lock_held >>= finalize_unless)
      else (release_all_payment_validation_locks >> pure true)

  unfoldable pub finish_finalize : Act (JobManager S) (Unit {0})
  finish_finalize = do on_store (st.release_lock lock_finalize lock_holder); set_finalize false
