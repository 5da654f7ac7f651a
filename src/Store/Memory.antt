-- ===== src/Store/Memory.antt =====
-- app/adapters/secondary/memory_job_store.py: the store in memory. Each method holds the store's
-- asyncio lock throughout, so it is one step. Copies are values here.
pub mod Contract
pub mod Exclusive
use automitizacion_hbi_capit.Base.{
  ℕ, ◌+◌, ◌*◌, String, Bool, true, false, not, Option, none, some, ◌==◌, if◌then◌else◌,
}
use automitizacion_hbi_capit.Json.{
  Value, null, text, iso, aware, arr, obj, Items, nil, cons, Dict, empty, entry, holds, is_text,
}
use automitizacion_hbi_capit.Json.Ops.{lookup, insert, update}
use automitizacion_hbi_capit.Locks.{iso_of, micros, is_lock_expired, should_relinquish_lock}
use automitizacion_hbi_capit.Effects.{ok, Act, assign}

-- `now` and `ttl` are what the clock and `default_lock_ttl_seconds` read.
pub record MemoryJobStore : Type 0 where
  pub jobs : String → Option Dict
  pub locks : String → Option Dict
  pub now : ℕ
  pub ttl : ℕ

abbrev pub get_or_empty : Option Dict → Dict
get_or_empty none = empty
get_or_empty (some d) = d

abbrev put_job : String → Dict → MemoryJobStore → MemoryJobStore
put_job id d s = record s { jobs = assign ◌==◌ id (some d) s.jobs }

abbrev put_lock : String → Option Dict → MemoryJobStore → MemoryJobStore
put_lock key d s = record s { locks = assign ◌==◌ key d s.locks }

unfoldable pub create_job : String → Dict → Act MemoryJobStore (Unit {0})
create_job id record' s = (ok tt, put_job id record' s)

unfoldable pub get_job : String → Act MemoryJobStore (Option Dict)
get_job id s = (ok (s.jobs id), s)

unfoldable pub update_job : String → Dict → Act MemoryJobStore (Unit {0})
update_job id updates s = (ok tt, put_job id (update (get_or_empty (s.jobs id)) updates) s)

unfoldable pub complete_job : String → Dict → Act MemoryJobStore (Unit {0})
unfolding update_job
complete_job id result =
    update_job id
      (entry "status" (text "completed") (entry "result" (obj result) (entry "error" null empty)))

unfoldable pub fail_job : String → Dict → Act MemoryJobStore (Unit {0})
unfolding update_job
fail_job id err =
    update_job id
      (entry "status" (text "failed") (entry "error" (obj err) (entry "result" null empty)))

-- `list(v or [])`
abbrev pub items_of : Option Value → Items
items_of (some (arr xs)) = xs
items_of _ = nil

unfoldable pub append_item : Items → Value → Items
append_item nil v = cons v nil
append_item (cons x xs) v = cons x (append_item xs v)

unfoldable pub append_event : String → Dict → Act MemoryJobStore (Unit {0})
unfolding append_item
append_event id event s =
    let current = get_or_empty (s.jobs id) in
    let events = append_item (items_of (lookup "events" current)) (obj event) in
    (ok tt, put_job id (insert "events" (arr events) current) s)

unfoldable pub get_lock : String → Act MemoryJobStore (Option Dict)
get_lock key s = (ok (s.locks key), s)

-- `datetime.isoformat` of an instant in UTC
abbrev pub isoformat : ℕ → Value
isoformat t = iso (aware t)

abbrev pub lock_record : String → String → Value → Value → Dict
lock_record key holder created expires =
    entry "lock_key" (text key)
      (entry "holder" (text holder) (entry "created_at" created (entry "expires_at" expires empty)))

unfoldable pub cleanup_expired_lock : String → Act MemoryJobStore Bool
cleanup_expired_lock key s = elim (s.locks key) [
  | none ↦ (ok false, s)
  | some existing ↦
      if should_relinquish_lock s.now s.ttl existing
      then (ok true, put_lock key none s)
      else (ok false, s)
]

-- `existing.get("created_at") or now.isoformat()`
abbrev created_or : Option Value → Value → Value
created_or none t = t
created_or (some v) t = if holds (some v) then v else t

unfoldable pub acquire_lock : String → String → ℕ → Act MemoryJobStore Bool
acquire_lock key holder ttl_seconds s =
    let expires = isoformat (s.now + ttl_seconds * micros) in
    let fresh = put_lock key (some (lock_record key holder (isoformat s.now) expires)) s in
    elim (s.locks key) [
      | none ↦ (ok true, fresh)
      | some existing ↦
          if not (is_lock_expired s.now (iso_of (lookup "expires_at" existing)))
          then (if is_text (lookup "holder" existing) holder
              then (
                ok true,
                put_lock key
                    (some (
                      lock_record key holder
                        (created_or (lookup "created_at" existing) (isoformat s.now)) expires))
                    s,
              )
              else (ok false, s))
          else (ok true, fresh)
    ]

unfoldable pub release_lock : String → String → Act MemoryJobStore (Unit {0})
release_lock key holder s = elim (s.locks key) [
  | none ↦ (ok tt, s)
  | some existing ↦
      if is_text (lookup "holder" existing) holder then (ok tt, put_lock key none s) else (ok tt, s)
]

unfoldable pub is_lock_held : String → Act MemoryJobStore Bool
is_lock_held key s = elim (s.locks key) [
  | none ↦ (ok false, s)
  | some existing ↦
      if should_relinquish_lock s.now s.ttl existing
      then (ok false, put_lock key none s)
      else (ok true, s)
]

-- `clear_all`
unfoldable pub clear_all : MemoryJobStore → MemoryJobStore
clear_all s = record s { jobs = λ _. none; locks = λ _. none }
