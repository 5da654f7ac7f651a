-- ===== src/LockDiagnostics/Cleanup.antt =====
-- What `cleanup_expired_payment_validation_locks` of app/application/payment_validation_locks.py does
-- to the locks, and what it reports.
use automitizacion_hbi_capit.Base.{
  arith, ◌||◌, ℕ, String, ◌≡◌, refl, sym, ap, ◌∙◌, Bool, true, false, not, Option, none, some,
  Bool-cases, inl, inr, if◌then◌else◌,
}
use automitizacion_hbi_capit.Json.{Dict, empty, entry, truthy, obj}
use automitizacion_hbi_capit.Json.Ops.{lookup}
use automitizacion_hbi_capit.Locks.{
  should_relinquish_lock, is_lock_expired, is_legacy_oversized_lock, iso_of,
}
use automitizacion_hbi_capit.Effects.{Result, ok, pure}
use automitizacion_hbi_capit.Store.{JobStore}
use automitizacion_hbi_capit.JobManager.{JobManager, on_store}
use automitizacion_hbi_capit.JobManager.LockContract.{
  Which, generate, finalize, key_of, LockView, lock_of, with_lock, in_force, keep_if, purge,
  drop_of, held_by, KeepsLocks,
}
use automitizacion_hbi_capit.JobManager.Start.{Gives, then-Gives}
use automitizacion_hbi_capit.JobManager.Purged.{purged}
use automitizacion_hbi_capit.LockDiagnostics.{
  LockInfo, Cleaned, lock_info, look_up, detailed_lock_status, clean_found, clean_key,
  cleanup_expired_payment_validation_locks, holder_or_global, relinquish_reason,
}

-- Reading a lock, and the clock.
pub record ReadsLocks {S : Type 0} (st : JobStore S) (view : S → LockView) : Type 0 where
  pub get_lock-view : (w : Which) (s : S) → st.get_lock (key_of w) s ≡ (ok (lock_of w (view s)), s)
  pub now-view : (s : S) → st.now s ≡ (view s).now

-- Why a lock is cleaned up, if it is.
abbrev reason_in : ℕ → ℕ → Option Dict → Option String
reason_in now ttl none = none
reason_in now ttl (some d) =
    if is_lock_expired now (iso_of (lookup "expires_at" d))
    then some "expired"
    else if is_legacy_oversized_lock now ttl d
    then some "legacy_ttl_exceeded"
    else none

abbrev pub reason_of : Which → LockView → Option String
reason_of w v = reason_in v.now v.ttl (lock_of w v)

abbrev info_of : Which → LockView → LockInfo
info_of w v = lock_info v.now v.ttl (key_of w) (lock_of w v)

-- What the cleanup reports of the locks `v`: the reasons, and the locks that are left.
abbrev pub report_of : Bool → LockView → Cleaned
report_of enabled v = record {
  generate_reason = reason_of generate v;
  finalize_reason = reason_of finalize v;
  locks_after = record {
    locks_enabled = enabled;
    generate_info = info_of generate (purged v);
    finalize_info = info_of finalize (purged v);
  };
}

reason_in-kept :
    (now ttl : ℕ) (d : Dict)
    → should_relinquish_lock now ttl d ≡ false
    → reason_in now ttl (some d) ≡ none
unfolding should_relinquish_lock
reason_in-kept now ttl d h = ground arith

reason_in-given :
    (now ttl : ℕ) (d : Dict)
    → should_relinquish_lock now ttl d ≡ true
    → reason_in now ttl (some d) ≡ some (relinquish_reason now d)
unfolding should_relinquish_lock
reason_in-given now ttl d h = ground arith

with_lock-same :
    (w : Which) (v : LockView) (o : Option Dict) → lock_of w v ≡ o → with_lock w o v ≡ v
with_lock-same generate v o h = ap (λ p. with_lock generate p v) (sym h)
with_lock-same finalize v o h = ap (λ p. with_lock finalize p v) (sym h)

purge-kept :
    (w : Which) (v : LockView) (o : Option Dict)
    → lock_of w v ≡ o
    → keep_if (in_force v.now v.ttl o) o ≡ o
    → purge w v ≡ v
purge-kept w v o h k =
    with_lock-same w v _ (h ∙ sym (ap (λ p. keep_if (in_force v.now v.ttl p) p) h ∙ k))

lock_of-purge :
    (w : Which) (v : LockView) (d : Dict)
    → lock_of w v ≡ some d
    → should_relinquish_lock v.now v.ttl d ≡ true
    → lock_of w (purge w v) ≡ none
lock_of-purge generate v d h r = rw (h, r)
lock_of-purge finalize v d h r = rw (h, r)

drop_of-none :
    (w : Which) (holder : String) (v : LockView) → lock_of w v ≡ none → drop_of w holder v ≡ v
drop_of-none w holder v h =
    with_lock-same w v _ (h ∙ sym (ap (λ o. keep_if (not (held_by holder o)) o) h))

relinquished-truthy :
    (now ttl : ℕ) (d : Dict) → should_relinquish_lock now ttl d ≡ true → truthy (obj d) ≡ true
unfolding should_relinquish_lock lookup
relinquished-truthy now ttl empty h = cc
relinquished-truthy now ttl (entry k v d) h = refl

skips : (a b : Bool) → b ≡ false → (not a || not b) ≡ true
skips a b h = ground arith

does_not_skip : (a b : Bool) → a ≡ true → b ≡ true → (not a || not b) ≡ false
does_not_skip a b h k = ground arith

module _ {S : Type 0} (st : JobStore S) (view : S → LockView) (wait : ℕ → S → S)
    (laws : KeepsLocks st view wait) (reads : ReadsLocks st view) (enabled : Bool) (ttl : ℕ) where
  open laws use {cleanup_expired_lock-view, release_lock-view}
  open reads use {get_lock-view, now-view}

  abbrev Leaves : {A : Type 0} → A → LockView → Result A × JobManager S → Type 0
  Leaves = Gives st view wait laws ttl

  release-Leaves :
      (w : Which) (holder : String) (v : LockView) (jm : JobManager S) (done : Bool)
      → view jm.store ≡ v
      → lock_of w v ≡ none
      → Leaves tt v ((if done then pure tt else on_store (st.release_lock (key_of w) holder)) jm)
  release-Leaves w holder v jm true e h = (refl, e)
  release-Leaves w holder v jm false e h =
      let r = release_lock-view w jm.store holder in
      (r.0, r.1 ∙ ap (drop_of w holder) e ∙ drop_of-none w holder v h)

  clean_found-Leaves :
      (w : Which) (v : LockView) (jm : JobManager S) (found : Option Dict)
      → view jm.store ≡ v
      → v.ttl ≡ ttl
      → lock_of w v ≡ found
      → Leaves
          (reason_in v.now v.ttl found)
          (purge w v)
          (clean_found st enabled ttl (key_of w) v.now found jm)
  unfolding clean_found
  clean_found-Leaves w v jm none e t h = (refl, e ∙ sym (purge-kept w v none h refl))
  clean_found-Leaves w v jm (some d) e t h =
      elim (Bool-cases (should_relinquish_lock v.now v.ttl d)) [
        | inr r ↦
            let r' = ap (λ n. should_relinquish_lock v.now n d) (sym t) ∙ r in
            let skip = skips (truthy (obj d)) (should_relinquish_lock v.now ttl d) r' in
            rw (skip, reason_in-kept v.now v.ttl d r)
              (refl, e ∙ sym (purge-kept w v (some d) h (ap (λ b. keep_if (not b) (some d)) r)))
        | inl r ↦
            let r' = ap (λ n. should_relinquish_lock v.now n d) (sym t) ∙ r in
            let cleans =
              does_not_skip (truthy (obj d)) (should_relinquish_lock v.now ttl d)
                (relinquished-truthy _ _ d r') r' in
            let (b, returned, after) = cleanup_expired_lock-view w jm.store in
            rw (cleans, reason_in-given v.now v.ttl d r)
              (then-Gives st view wait laws ttl b _ (purge w v) (purge w v)
                (on_store (st.cleanup_expired_lock (key_of w))) _ jm
                (returned, after ∙ ap (purge w) e)
                (λ jm1 e1.
                  then-Gives st view wait laws ttl tt _ (purge w v) (purge w v)
                    (if b
                      then pure tt
                      else on_store (st.release_lock (key_of w) (holder_or_global d)))
                    _ jm1
                    (release-Leaves w (holder_or_global d) (purge w v) jm1 b e1
                      (lock_of-purge w v d h r))
                    (λ jm2 e2. (refl, e2))))
      ]

  clean_key-Leaves :
      (w : Which) (v : LockView) (jm : JobManager S)
      → view jm.store ≡ v
      → v.ttl ≡ ttl
      → Leaves (reason_of w v) (purge w v) (clean_key st enabled ttl (key_of w) jm)
  unfolding clean_key
  clean_key-Leaves w v jm e t =
      rw (get_lock-view w jm.store, now-view jm.store, e)
        (clean_found-Leaves w v jm (lock_of w v) e t refl)

  look_up-Leaves :
      (w : Which) (v : LockView) (jm : JobManager S)
      → view jm.store ≡ v
      → v.ttl ≡ ttl
      → Leaves (info_of w v) v (look_up st enabled ttl (key_of w) jm)
  unfolding look_up
  look_up-Leaves w v jm e t = rw (get_lock-view w jm.store, now-view jm.store, e, t) (refl, refl)

  status-Leaves :
      (v : LockView) (jm : JobManager S)
      → view jm.store ≡ v
      → v.ttl ≡ ttl
      → Leaves
          (record {
            locks_enabled = enabled;
            generate_info = info_of generate v;
            finalize_info = info_of finalize v;
          })
          v
          (detailed_lock_status st enabled ttl jm)
  unfolding detailed_lock_status
  status-Leaves v jm e t =
      then-Gives st view wait laws ttl (info_of generate v) _ v v
        (look_up st enabled ttl (key_of generate)) _ jm (look_up-Leaves generate v jm e t)
        (λ jm1 e1.
          then-Gives st view wait laws ttl (info_of finalize v) _ v v
            (look_up st enabled ttl (key_of finalize)) _ jm1 (look_up-Leaves finalize v jm1 e1 t)
            (λ jm2 e2. (refl, e2)))

  -- The cleanup returns, leaves exactly the locks that are in force, and reports of each lock that it
  -- took away why, which is that it has run out wherever it has, with the state of the two locks after
  -- it.
  pub cleanup_expired_payment_validation_locks-Leaves :
      (jm : JobManager S)
      → (view jm.store).ttl ≡ ttl
      → let v = view jm.store in
        let r = cleanup_expired_payment_validation_locks st enabled ttl jm in
        (r.0 ≡ ok (report_of enabled v)) × (view r.1.store ≡ purged v)
  unfolding cleanup_expired_payment_validation_locks
  cleanup_expired_payment_validation_locks-Leaves jm t =
      let v = view jm.store in
      then-Gives st view wait laws ttl (reason_of generate v) _ (purge generate v) (purged v)
        (clean_key st enabled ttl (key_of generate)) _ jm (clean_key-Leaves generate v jm refl t)
        (λ jm1 e1.
          then-Gives st view wait laws ttl (reason_of finalize v) _ (purged v) (purged v)
            (clean_key st enabled ttl (key_of finalize)) _ jm1
            (clean_key-Leaves finalize (purge generate v) jm1 e1 t)
            (λ jm2 e2.
              then-Gives st view wait laws ttl _ _ (purged v) (purged v)
                (detailed_lock_status st enabled ttl) _ jm2 (status-Leaves (purged v) jm2 e2 t)
                (λ jm3 e3. (refl, e3))))
