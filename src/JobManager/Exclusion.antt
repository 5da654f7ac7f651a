-- ===== src/JobManager/Exclusion.antt =====
-- Mutual exclusion of generate and finalize (app/application/job_manager.py), one call after the other.
use automitizacion_hbi_capit.Locks.Expiry.{whole_seconds-add}
use automitizacion_hbi_capit.Store.Memory.{isoformat, lock_record}
use automitizacion_hbi_capit.Json.Ops.{lookup}
use automitizacion_hbi_capit.Locks.{should_relinquish_lock, micros}
use automitizacion_hbi_capit.Base.{
  lt→ltb, ltb, ℕ, ◌+◌, ◌*◌, ◌<◌, ◌≤◌, String, Bool, true, false, not, ◌≡◌, refl, ◌||◌, ap, ◌∙◌,
  some, arith,
}
use automitizacion_hbi_capit.Effects.{ok}
use automitizacion_hbi_capit.Store.{JobStore}
use automitizacion_hbi_capit.JobManager.{JobManager, lock_holder}
use automitizacion_hbi_capit.JobManager.LockContract.{
  key_of, drop_of, in_force, grant, Which, generate, finalize, LockView, KeepsLocks,
}
use automitizacion_hbi_capit.JobManager.Start.{finish-Gives, try_start-Gives, start-Gives}
use automitizacion_hbi_capit.JobManager.Purged.{idle-held, start, try_start, finish, busy, purged}

or_false : (b : Bool) → (b || false) ≡ b
or_false b = ground arith

false_of_not : (b : Bool) → not b ≡ true → b ≡ false
false_of_not b h = ground arith

ltb-false_of_le : (a b : ℕ) → b ≤ a → ltb a b ≡ false
ltb-false_of_le a b h = ground arith

-- A lock that was granted for the configured time is in force until just that time has passed.
granted-in_force :
    (now t ttl : ℕ) (key holder : String)
    → in_force
        (now + t)
        ttl
        (some (lock_record key holder (isoformat now) (isoformat (now + ttl * micros))))
      ≡ ltb t (ttl * micros)
unfolding should_relinquish_lock lookup
granted-in_force now t ttl key holder = ground (arith, whole_seconds-add now ttl)

abbrev advance : ℕ → LockView → LockView
advance t v = record v { now = v.now + t }

-- Of two idle locks one is taken: some time later one is in force, until its time has passed.
busy-granted :
    (w : Which) (t ttl : ℕ) (v : LockView)
    → busy v ≡ false
    → v.ttl ≡ ttl
    → busy (advance t (grant w lock_holder ttl (purged v))) ≡ ltb t (ttl * micros)
busy-granted generate t ttl v free same =
    let record' =
      lock_record (key_of generate) lock_holder (isoformat v.now)
        (isoformat (v.now + ttl * micros)) in
    let taken =
      ap (λ n. in_force (v.now + t) n (some record')) same
      ∙ granted-in_force v.now t ttl (key_of generate) lock_holder in
    rw (idle-held finalize v free, taken) (or_false _)
busy-granted finalize t ttl v free same =
    let record' =
      lock_record (key_of finalize) lock_holder (isoformat v.now)
        (isoformat (v.now + ttl * micros)) in
    let taken =
      ap (λ n. in_force (v.now + t) n (some record')) same
      ∙ granted-in_force v.now t ttl (key_of finalize) lock_holder in
    rw (idle-held generate v free, taken)

-- A lock that was taken and given back leaves both idle.
busy-dropped :
    (w : Which) (t ttl : ℕ) (v : LockView)
    → busy v ≡ false
    → busy (advance t (drop_of w lock_holder (grant w lock_holder ttl (purged v)))) ≡ false
unfolding lookup
busy-dropped generate t ttl v free = rw (idle-held finalize v free)
busy-dropped finalize t ttl v free = rw (idle-held generate v free)

module _ {S : Type 0} (st : JobStore S) (view : S → LockView) (wait : ℕ → S → S)
    (laws : KeepsLocks st view wait) (ttl : ℕ) where
  open laws use {release_lock-view, wait-view}

  -- The world when `t` microseconds have passed.
  abbrev pub later : ℕ → JobManager S → JobManager S
  later t jm = record jm { store = wait t jm.store }

  view-later : (t : ℕ) (jm : JobManager S) → view (later t jm).store ≡ advance t (view jm.store)
  view-later t jm = wait-view t jm.store

  starts :
      (w : Which) (jm : JobManager S) → (try_start st ttl w jm).0 ≡ ok (not (busy (view jm.store)))
  starts w jm = (try_start-Gives st view wait laws ttl w (view jm.store) jm refl).0

  idle_of_started :
      (w : Which) (jm : JobManager S)
      → (try_start st ttl w jm).0 ≡ ok true
      → busy (view jm.store) ≡ false
  idle_of_started w jm h = false_of_not (busy (view jm.store)) (cc (starts w jm))

  view-started :
      (w : Which) (jm : JobManager S)
      → busy (view jm.store) ≡ false
      → view (try_start st ttl w jm).1.store ≡ grant w lock_holder ttl (purged (view jm.store))
  view-started w jm free =
      (try_start-Gives st view wait laws ttl w (view jm.store) jm refl).1 ∙ rw free

  -- The second operation starts, `t` microseconds after the first one, exactly if the first one's lock
  -- has run out.
  after-start :
      (w w' : Which) (t : ℕ) (jm : JobManager S)
      → (view jm.store).ttl ≡ ttl
      → (try_start st ttl w jm).0 ≡ ok true
      → (try_start st ttl w' (later t (try_start st ttl w jm).1)).0
        ≡ ok (not (ltb t (ttl * micros)))
  after-start w w' t jm same h =
      let free = idle_of_started w jm h in
      starts w' (later t (try_start st ttl w jm).1)
      ∙ ap (λ v. ok (not (busy v)))
          (view-later t (try_start st ttl w jm).1 ∙ ap (advance t) (view-started w jm free))
      ∙ ap (λ b. ok (not b)) (busy-granted w t ttl (view jm.store) free same)

  disabled-starts : (w : Which) (jm : JobManager S) → (start st false ttl w jm).0 ≡ ok true
  disabled-starts w jm = (start-Gives st view wait laws ttl false w (view jm.store) jm refl).0

  -- Where the locks are enabled, generate and finalize exclude each other, and themselves: once one of
  -- them has started, and with nothing but time in between, no attempt to start either of them
  -- succeeds until its lock runs out; from then on one does, also if the first was never finished.
  -- Where the locks are disabled, the next attempt succeeds at any time.
  pub try_start_excludes :
      (enabled : Bool) (w w' : Which) (t : ℕ) (jm : JobManager S)
      → (view jm.store).ttl ≡ ttl
      → (start st enabled ttl w jm).0 ≡ ok true
      → let next = (start st enabled ttl w' (later t (start st enabled ttl w jm).1)).0 in
        (enabled ≡ true
          → (t < ttl * micros → next ≡ ok false) × (ttl * micros ≤ t → next ≡ ok true))
        × (enabled ≡ false → next ≡ ok true)
  try_start_excludes true w w' t jm same h = (
    λ _. (
      λ lt. after-start w w' t jm same h ∙ rw (lt→ltb _ _ lt),
      λ le.
          after-start w w' t jm same h ∙ ap (λ b. ok (not b)) (ltb-false_of_le t (ttl * micros) le),
    ),
    λ no. absurd (cc no),
  )
  try_start_excludes false w w' t jm same h =
      (λ no. absurd (cc no), λ _. disabled-starts w' (later t (start st false ttl w jm).1))

  finished-starts :
      (w w' : Which) (t : ℕ) (jm : JobManager S)
      → (try_start st ttl w jm).0 ≡ ok true
      → let done = (finish st true ttl w (try_start st ttl w jm).1).1 in
        (try_start st ttl w' (later t done)).0 ≡ ok true
  finished-starts w w' t jm h =
      let free = idle_of_started w jm h in
      let jm1 = (try_start st ttl w jm).1 in
      let done = (finish st true ttl w jm1).1 in
      starts w' (later t done)
      ∙ ap (λ v. ok (not (busy v)))
          (view-later t done
            ∙ ap (advance t) (
                (finish-Gives st view wait laws ttl true w jm1).1
                ∙ ap (drop_of w lock_holder) (view-started w jm free)))
      ∙ ap (λ b. ok (not b)) (busy-dropped w t ttl (view jm.store) free)

  -- Once an operation that has started is finished, both can start again at any later time, whether the
  -- locks are enabled or not.
  pub finish-try_start :
      (enabled : Bool) (w w' : Which) (t : ℕ) (jm : JobManager S)
      → (start st enabled ttl w jm).0 ≡ ok true
      → let done = (finish st enabled ttl w (start st enabled ttl w jm).1).1 in
        (start st enabled ttl w' (later t done)).0 ≡ ok true
  finish-try_start true w w' t jm h = finished-starts w w' t jm h
  finish-try_start false w w' t jm h =
      disabled-starts w' (later t (finish st false ttl w (start st false ttl w jm).1).1)
