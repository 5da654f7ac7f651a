-- ===== src/JobManager/Start.antt =====
-- `try_start_generate`, `try_start_finalize` and the `finish_` methods of
-- app/application/job_manager.py, over any store that keeps the lock contract.
use automitizacion_hbi_capit.Base.{
  ℕ, Bool, true, false, not, ◌≡◌, refl, ◌||◌, ap, ◌∙◌, if◌then◌else◌,
}
use automitizacion_hbi_capit.Effects.{◌>>◌, pure, Result, ok, Act, ◌>>=◌, bind_rule}
use automitizacion_hbi_capit.Store.{JobStore}
use automitizacion_hbi_capit.JobManager.{
  generate_unless, finalize_unless, JobManager, on_store, lock_holder, any_lock_held,
  purge_expired_locks, release_all_payment_validation_locks, try_start_generate, try_start_finalize,
  finish_generate, finish_finalize,
}
use automitizacion_hbi_capit.JobManager.LockContract.{
  drop_of, Which, generate, finalize, key_of, LockView, held, purge, grant, KeepsLocks,
}
use automitizacion_hbi_capit.JobManager.Purged.{
  try_start, start, finish, dropped, purged, busy, purge-purged, held-purged, lock_of-purged,
  started, idle-held,
}

module _ {S : Type 0} (st : JobStore S) (view : S → LockView) (wait : ℕ → S → S)
    (laws : KeepsLocks st view wait) (ttl : ℕ) where
  open laws use {
    is_lock_held-view, cleanup_expired_lock-view, acquire_lock-view, release_lock-view, wait-view,
  }

  -- A step that returns `a` and leaves the locks as `v`.
  abbrev pub Gives : {A : Type 0} → A → LockView → Result A × JobManager S → Type 0
  Gives a v r = (r.0 ≡ ok a) × (view r.1.store ≡ v)

  pub then-Gives :
      {A B : Type 0} (a : A) (b : B) (v w : LockView) (m : Act (JobManager S) A)
      (f : A → Act (JobManager S) B) (jm : JobManager S)
      → Gives a v (m jm)
      → ((jm' : JobManager S) → view jm'.store ≡ v → Gives b w (f a jm'))
      → Gives b w ((m >>= f) jm)
  then-Gives a b v w m f jm g k =
      bind_rule (Gives a v) (Gives b w) m f jm g
        (λ a' jm' q. let same : a' ≡ a = cc (q.0) in rw same (k jm' q.1))
        (λ e jm' q. absurd (cc (q.0)))

  held-Gives :
      (w : Which) (v : LockView) (jm : JobManager S)
      → view jm.store ≡ v
      → Gives (held w v) (purge w v) (on_store (st.is_lock_held (key_of w)) jm)
  held-Gives w v jm e = rw (← e) (is_lock_held-view w jm.store)

  held_at :
      (w : Which) (v : LockView) (jm : JobManager S)
      → view jm.store ≡ purged v
      → Gives (held w v) (purged v) (on_store (st.is_lock_held (key_of w)) jm)
  held_at w v jm e =
      let g = held-Gives w (purged v) jm e in
      (g.0 ∙ ap ok (held-purged w v), g.1 ∙ purge-purged w v)

  either_held :
      (b : Bool) (v : LockView) (jm : JobManager S)
      → view jm.store ≡ purged v
      → Gives
          (b || held finalize v)
          (purged v)
          ((if b then pure true else on_store (st.is_lock_held (key_of finalize))) jm)
  either_held true v jm e = (refl, e)
  either_held false v jm e = held_at finalize v jm e

  any_lock_held-Gives :
      (v : LockView) (jm : JobManager S)
      → view jm.store ≡ purged v
      → Gives (busy v) (purged v) (any_lock_held st true ttl jm)
  unfolding any_lock_held
  any_lock_held-Gives v jm e =
      then-Gives (held generate v) (busy v) (purged v) (purged v)
        (on_store (st.is_lock_held (key_of generate))) _ jm (held_at generate v jm e)
        (either_held (held generate v) v)

  cleanup-Gives :
      {A : Type 0} (w : Which) (a : A) (v v' : LockView) (f : Bool → Act (JobManager S) A)
      (jm : JobManager S)
      → view jm.store ≡ v
      → ((b : Bool) (jm' : JobManager S) → view jm'.store ≡ purge w v → Gives a v' (f b jm'))
      → Gives a v' ((on_store (st.cleanup_expired_lock (key_of w)) >>= f) jm)
  cleanup-Gives w a v v' f jm e k =
      let (b, done, after) = cleanup_expired_lock-view w jm.store in
      then-Gives b a (purge w v) v' (on_store (st.cleanup_expired_lock (key_of w))) f jm
        (done, rw (← e) after) (k b)

  purge-Gives :
      (v : LockView) (jm : JobManager S)
      → view jm.store ≡ v
      → Gives tt (purged v) (purge_expired_locks st true ttl jm)
  unfolding purge_expired_locks
  purge-Gives v jm e = cleanup-Gives generate tt v (purged v) _ jm e λ _ jm1 e1.
      cleanup-Gives finalize tt (purge generate v) (purged v) _ jm1 e1 λ _ jm2 e2. (refl, e2)

  acquire-Gives :
      (w : Which) (v : LockView) (jm : JobManager S)
      → view jm.store ≡ purged v
      → held w v ≡ false
      → Gives true
          (grant w lock_holder ttl (purged v))
          (on_store (st.acquire_lock (key_of w) lock_holder ttl) jm)
  acquire-Gives w v jm e free =
      let g = acquire_lock-view w jm.store lock_holder ttl (rw e (lock_of-purged w v free)) in
      (g.0, g.1 ∙ ap (grant w lock_holder ttl) e)

  generate_unless-Gives :
      (b : Bool) (v : LockView) (jm : JobManager S)
      → busy v ≡ b
      → view jm.store ≡ purged v
      → Gives
          (not b)
          (if b then purged v else grant generate lock_holder ttl (purged v))
          (generate_unless st true ttl b jm)
  unfolding generate_unless
  generate_unless-Gives true v jm h e =
      let jm' = record jm { generate_active = false } in
      then-Gives (held finalize v) false (purged v) (purged v)
        (on_store (st.is_lock_held (key_of finalize))) _ jm' (held_at finalize v jm' e)
        (λ jm3 e3. (refl, e3))
  generate_unless-Gives false v jm h e =
      let taken = grant generate lock_holder ttl (purged v) in
      then-Gives true true taken taken
        (on_store (st.acquire_lock (key_of generate) lock_holder ttl)) _ jm
        (acquire-Gives generate v jm e (idle-held generate v h)) (λ jm3 e3. (refl, e3))

  finalize_unless-Gives :
      (b : Bool) (v : LockView) (jm : JobManager S)
      → busy v ≡ b
      → view jm.store ≡ purged v
      → Gives
          (not b)
          (if b then purged v else grant finalize lock_holder ttl (purged v))
          (finalize_unless st true ttl b jm)
  unfolding finalize_unless
  finalize_unless-Gives true v jm h e =
      let jm' = record jm { finalize_active = false } in
      then-Gives (held generate v) false (purged v) (purged v)
        (on_store (st.is_lock_held (key_of generate))) _ jm' (held_at generate v jm' e)
        (λ jm3 e3. (refl, e3))
  finalize_unless-Gives false v jm h e =
      let taken = grant finalize lock_holder ttl (purged v) in
      then-Gives true true taken taken
        (on_store (st.acquire_lock (key_of finalize) lock_holder ttl)) _ jm
        (acquire-Gives finalize v jm e (idle-held finalize v h)) (λ jm3 e3. (refl, e3))

  -- With the locks enabled.
  pub try_start-Gives :
      (w : Which) (v : LockView) (jm : JobManager S)
      → view jm.store ≡ v
      → Gives (not (busy v)) (started ttl w v) (try_start st ttl w jm)
  unfolding try_start_generate try_start_finalize
  try_start-Gives generate v jm e =
      then-Gives (busy v) (not (busy v)) (purged v) (started ttl generate v)
        (purge_expired_locks st true ttl >> any_lock_held st true ttl) (generate_unless st true ttl)
        jm
        (then-Gives tt (busy v) (purged v) (purged v) (purge_expired_locks st true ttl)
          (λ _. any_lock_held st true ttl) jm (purge-Gives v jm e) (any_lock_held-Gives v))
        (λ jm2. generate_unless-Gives (busy v) v jm2 refl)
  try_start-Gives finalize v jm e =
      then-Gives (busy v) (not (busy v)) (purged v) (started ttl finalize v)
        (purge_expired_locks st true ttl >> any_lock_held st true ttl) (finalize_unless st true ttl)
        jm
        (then-Gives tt (busy v) (purged v) (purged v) (purge_expired_locks st true ttl)
          (λ _. any_lock_held st true ttl) jm (purge-Gives v jm e) (any_lock_held-Gives v))
        (λ jm2. finalize_unless-Gives (busy v) v jm2 refl)

  release_all-Gives :
      (v : LockView) (jm : JobManager S)
      → view jm.store ≡ v
      → Gives true (dropped v) ((release_all_payment_validation_locks st false ttl >> pure true) jm)
  unfolding release_all_payment_validation_locks
  release_all-Gives v jm e =
      let once = drop_of generate lock_holder v in
      let g = release_lock-view generate jm.store lock_holder in
      then-Gives tt true (dropped v) (dropped v) (release_all_payment_validation_locks st false ttl)
        (λ _. pure true) jm
        (then-Gives tt tt once (dropped v)
          (on_store (st.release_lock (key_of generate) lock_holder)) _ jm
          (g.0, g.1 ∙ ap (drop_of generate lock_holder) e)
          (λ jm1 e1.
            let h = release_lock-view finalize jm1.store lock_holder in
            then-Gives tt tt (dropped v) (dropped v)
              (on_store (st.release_lock (key_of finalize) lock_holder)) _ jm1
              (h.0, h.1 ∙ ap (drop_of finalize lock_holder) e1) (λ jm2 e2. (refl, e2))))
        (λ jm3 e3. (refl, e3))

  -- With the locks enabled an attempt to start gives up both locks that are no longer in force, succeeds
  -- exactly if neither lock is in force, and then takes its own lock from now on for the configured
  -- time. With the locks disabled it always succeeds: it releases both locks, and takes none.
  pub start-Gives :
      (enabled : Bool) (w : Which) (v : LockView) (jm : JobManager S)
      → view jm.store ≡ v
      → Gives
          (not enabled || not (busy v))
          (if enabled then started ttl w v else dropped v)
          (start st enabled ttl w jm)
  unfolding try_start_generate try_start_finalize
  start-Gives true w v jm e = try_start-Gives w v jm e
  start-Gives false generate v jm e = release_all-Gives v jm e
  start-Gives false finalize v jm e = release_all-Gives v jm e

  -- The end of an operation gives its lock back, and touches nothing else.
  pub finish-Gives :
      (enabled : Bool) (w : Which) (jm : JobManager S)
      → Gives tt (drop_of w lock_holder (view jm.store)) (finish st enabled ttl w jm)
  unfolding finish_generate finish_finalize
  finish-Gives enabled generate jm =
      let given = drop_of generate lock_holder (view jm.store) in
      then-Gives tt tt given given (on_store (st.release_lock (key_of generate) lock_holder)) _ jm
        (release_lock-view generate jm.store lock_holder) (λ jm' e. (refl, e))
  finish-Gives enabled finalize jm =
      let given = drop_of finalize lock_holder (view jm.store) in
      then-Gives tt tt given given (on_store (st.release_lock (key_of finalize) lock_holder)) _ jm
        (release_lock-view finalize jm.store lock_holder) (λ jm' e. (refl, e))
