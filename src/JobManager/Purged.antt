-- ===== src/JobManager/Purged.antt =====
-- The two locks without what is no longer in force, and the operations of
-- app/application/job_manager.py by the lock that they take.
use automitizacion_hbi_capit.Base.{
  ℕ, Bool, true, false, ◌≡◌, refl, ◌||◌, ap, Option, none, some, if◌then◌else◌, Bool-cases, inl,
  inr, arith,
}
use automitizacion_hbi_capit.Json.{Dict}
use automitizacion_hbi_capit.Effects.{Act}
use automitizacion_hbi_capit.Store.{JobStore}
use automitizacion_hbi_capit.JobManager.{
  JobManager, lock_holder, try_start_generate, try_start_finalize, finish_generate, finish_finalize,
}
use automitizacion_hbi_capit.JobManager.LockContract.{
  Which, generate, finalize, LockView, lock_of, with_lock, in_force, held, keep_if, purge, grant,
  drop_of,
}

-- The two operations, by the lock that they take.
abbrev pub start : {S : Type 0} → JobStore S → Bool → ℕ → Which → Act (JobManager S) Bool
start st enabled ttl generate = try_start_generate st enabled ttl
start st enabled ttl finalize = try_start_finalize st enabled ttl

abbrev pub finish : {S : Type 0} → JobStore S → Bool → ℕ → Which → Act (JobManager S) (Unit {0})
finish st enabled ttl generate = finish_generate st enabled ttl
finish st enabled ttl finalize = finish_finalize st enabled ttl

-- With the locks enabled.
abbrev pub try_start : {S : Type 0} → JobStore S → ℕ → Which → Act (JobManager S) Bool
try_start st ttl w = start st true ttl w

-- Both locks after their release for the holder that the code names.
abbrev pub dropped : LockView → LockView
dropped v = drop_of finalize lock_holder (drop_of generate lock_holder v)

-- Both locks without what is no longer in force.
abbrev pub purged : LockView → LockView
purged v = purge finalize (purge generate v)

abbrev pub busy : LockView → Bool
busy v = held generate v || held finalize v

in_force-keep_if :
    (now ttl : ℕ) (o : Option Dict)
    → in_force now ttl (keep_if (in_force now ttl o) o) ≡ in_force now ttl o
in_force-keep_if now ttl none = refl
in_force-keep_if now ttl (some d) = elim (Bool-cases (in_force now ttl (some d))) [
  | inl h ↦ rw h h
  | inr h ↦ rw h
]

keep_if_idem :
    (now ttl : ℕ) (o : Option Dict)
    → keep_if (in_force now ttl (keep_if (in_force now ttl o) o)) (keep_if (in_force now ttl o) o)
      ≡ keep_if (in_force now ttl o) o
keep_if_idem now ttl o = elim (Bool-cases (in_force now ttl o)) [ inl h ↦ rw (h, h) | inr h ↦ rw h ]

pub purge-purged : (w : Which) (v : LockView) → purge w (purged v) ≡ purged v
purge-purged generate v =
    ap (λ o. with_lock generate o (purged v)) (keep_if_idem v.now v.ttl v.generate_lock)
purge-purged finalize v =
    ap (λ o. with_lock finalize o (purged v)) (keep_if_idem v.now v.ttl v.finalize_lock)

pub held-purged : (w : Which) (v : LockView) → held w (purged v) ≡ held w v
held-purged generate v = in_force-keep_if v.now v.ttl v.generate_lock
held-purged finalize v = in_force-keep_if v.now v.ttl v.finalize_lock

pub lock_of-purged : (w : Which) (v : LockView) → held w v ≡ false → lock_of w (purged v) ≡ none
lock_of-purged generate v h = rw h
lock_of-purged finalize v h = rw h

or_false_left : (a b : Bool) → (a || b) ≡ false → a ≡ false
or_false_left a b h = ground arith

or_false_right : (a b : Bool) → (a || b) ≡ false → b ≡ false
or_false_right a b h = ground arith

-- The locks after an attempt to take `w`.
abbrev pub started : ℕ → Which → LockView → LockView
started ttl w v = if busy v then purged v else grant w lock_holder ttl (purged v)

pub idle-held : (w : Which) (v : LockView) → busy v ≡ false → held w v ≡ false
idle-held generate v h = or_false_left (held generate v) (held finalize v) h
idle-held finalize v h = or_false_right (held generate v) (held finalize v) h
