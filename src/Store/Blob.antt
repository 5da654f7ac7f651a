-- ===== src/Store/Blob.antt =====
-- app/adapters/secondary/vercel_blob_job_store.py over the client of vercel_blob_client.py
-- (`InMemoryVercelBlobClient`): jobs, results, events and locks as objects under paths. A write of a
-- job holds the store's asyncio lock throughout, so it is one step here.
pub mod Locks
pub mod Fields
pub mod Summary
pub mod Results
pub mod Updates
pub mod Contract
pub mod Exclusive
use automitizacion_hbi_capit.Base.{
  ℕ, ◌+◌, ◌*◌, String, Bool, true, false, not, Option, none, some, List, [], ◌∷◌, ◌==◌, leb, ltb,
  if◌then◌else◌, or_else,
}
use automitizacion_hbi_capit.Json.{
  BlobPath, Value, null, num, text, ref, arr, obj, Items, nil, cons, Dict, empty, entry, holds,
  truthy, text_of, is_text,
}
use automitizacion_hbi_capit.Json.Ops.{lookup, contains, insert, delete, update, set_default}
use automitizacion_hbi_capit.Locks.{iso_of, micros, is_lock_expired}
use automitizacion_hbi_capit.Effects.{Result, ok, Act, assign}
use automitizacion_hbi_capit.Store.Memory.{isoformat, append_item}
use automitizacion_hbi_capit.Store.Blob.Summary.{extract_result_summary}

-- What stands under a path: a JSON document, or lines of JSON.
pub data BlobObject : Type 0 where
  json : Value → BlobObject
  ndjson : Items → BlobObject

abbrev pub path_eq : BlobPath → BlobPath → Bool
path_eq (BlobPath.meta a) (BlobPath.meta b) = a == b
path_eq (BlobPath.result a) (BlobPath.result b) = a == b
path_eq (BlobPath.full_result a) (BlobPath.full_result b) = a == b
path_eq (BlobPath.events a) (BlobPath.events b) = a == b
path_eq (BlobPath.lock a) (BlobPath.lock b) = a == b
path_eq (BlobPath.other a) (BlobPath.other b) = a == b
path_eq _ _ = false

abbrev pub Objects : Type 0
Objects = BlobPath → Option BlobObject

-- `now` and `lock_ttl` are what the clock and `default_lock_ttl_seconds` read.
pub record BlobStore : Type 0 where
  pub objects : Objects
  pub now : ℕ
  pub lock_ttl : ℕ

-- The settings of an instance, and the length of what is stored: `len(_serialize_json(v))`.
pub record Config : Type 0 where
  pub ttl_days : ℕ
  pub inline_max : ℕ
  pub http_get_max : ℕ
  pub size : BlobObject → ℕ

-- `get_json` where a dictionary is stored
abbrev pub as_dict : Option BlobObject → Option Dict
as_dict (some (json (obj d))) = some d
as_dict _ = none

abbrev pub put : BlobPath → BlobObject → Objects → Objects
put path o = assign path_eq path (some o)

abbrev pub remove : BlobPath → Objects → Objects
remove path = assign path_eq path none

abbrev pub compute_expires_at : ℕ → ℕ → Value
compute_expires_at now days = isoformat (now + days * 86_400 * micros)

-- The rest of `_read_meta`: an expired job is read as such, whatever its status is.
abbrev pub read_from : ℕ → Option Dict → Option Dict
read_from now none = none
read_from now (some meta) =
    if is_lock_expired now (iso_of (lookup "expires_at" meta))
    then some (insert "status" (text "expired") meta)
    else some meta

unfoldable pub read_meta : String → BlobStore → Option Dict
read_meta id s = read_from s.now (as_dict (s.objects (BlobPath.meta id)))

-- `extract_result_summary(inline if isinstance(inline, dict) else {"value": inline})`
abbrev summary_of : Value → Dict
summary_of (obj d) = extract_result_summary d
summary_of v = extract_result_summary (entry "value" v empty)

-- The path that `result_ref` holds.
abbrev pub path_of : Value → BlobPath
path_of (ref p) = p
path_of (text t) = BlobPath.other t
path_of _ = BlobPath.other ""

abbrev is_full : BlobPath → Bool
is_full (BlobPath.full_result _) = true
is_full _ = false

-- `await self._read_meta(job_id) or {"job_id": job_id}`
abbrev pub meta_or_new : String → Option Dict → Dict
meta_or_new id (some (entry k v d)) = entry k v d
meta_or_new id _ = entry "job_id" (text id) empty

abbrev or_value : Option Value → Value → Value
or_value none t = t
or_value (some v) t = if truthy v then v else t

abbrev value_of : Option Value → Value
value_of none = null
value_of (some v) = v

abbrev lines_of : Option BlobObject → Items
lines_of (some (ndjson xs)) = xs
lines_of _ = nil

-- One line of JSON is added: the event, with the time.
unfoldable pub append_event : String → Dict → Act BlobStore (Unit {0})
append_event id event s =
    let line = obj (insert "at" (isoformat s.now) event) in
    let lines = append_item (lines_of (s.objects (BlobPath.events id))) line in
    (ok tt, record s { objects = put (BlobPath.events id) (ndjson lines) s.objects })

module _ (cfg : Config) where
  unfoldable pub write_meta : String → Dict → BlobStore → BlobStore
  write_meta id meta s =
      let named = set_default "job_id" (text id) meta in
      let dated = set_default "updated_at" (isoformat s.now) named in
      let limited = set_default "expires_at" (compute_expires_at s.now cfg.ttl_days) dated in
      record s { objects = put (BlobPath.meta id) (json (obj limited)) s.objects }

  -- The objects after the result is stored, and the job's document that names it.
  unfoldable pub persist_result : String → Dict → Value → Objects → Objects × Dict
  persist_result id meta null objects =
      (objects, insert "result" null (delete "result_summary" (delete "result_ref" meta)))
  persist_result id meta (obj result) objects =
      if leb (cfg.size (json (obj result))) cfg.inline_max
      then (
        put (BlobPath.result id) (json (obj result)) objects,
        delete "result_summary"
            (insert "result_ref" (ref (BlobPath.result id)) (insert "result" (obj result) meta)),
      )
      else (
        put (BlobPath.full_result id) (json (obj result)) objects,
        insert "result_summary" (obj (extract_result_summary result))
            (insert "result_ref" (ref (BlobPath.full_result id)) (delete "result" meta)),
      )
  persist_result id meta result objects =
      (objects, delete "result_summary" (delete "result_ref" (insert "result" result meta)))

  -- What is left of a document that is too large for an answer.
  abbrev large : Dict → BlobPath → BlobObject → Dict
  large job path (json (obj full)) =
      if holds (lookup "result_summary" job)
      then job
      else if is_full path
      then insert "result_summary" (obj (extract_result_summary full)) job
      else job
  large job path o = job

  abbrev load_found : Dict → BlobPath → Option BlobObject → Dict
  load_found job path none = job
  load_found job path (some o) =
      if ltb cfg.http_get_max (cfg.size o)
      then large job path o
      else insert "result" (elim o [ json v ↦ v | ndjson _ ↦ null ]) job

  abbrev load_by : Option Value → Objects → Dict → Dict
  load_by none objects job = job
  load_by (some v) objects job =
      if truthy v then load_found job (path_of v) (objects (path_of v)) else job

  -- `job.get("result")`, with None for a missing one
  abbrev load_inline : Option Value → Objects → Dict → Dict
  load_inline none objects job = load_by (lookup "result_ref" job) objects job
  load_inline (some null) objects job = load_by (lookup "result_ref" job) objects job
  load_inline (some inline) objects job =
      if ltb cfg.http_get_max (cfg.size (json inline))
      then set_default "result_summary" (obj (summary_of inline)) (delete "result" job)
      else job

  unfoldable pub load_result_for_get : Objects → Dict → Dict
  load_result_for_get objects meta =
      if is_text (lookup "status" meta) "expired"
      then meta
      else load_inline (lookup "result" meta) objects meta

  -- The rest of `get_job`.
  abbrev pub load_from : Objects → Option Dict → Option Dict
  unfolding load_result_for_get
  load_from objects none = none
  load_from objects (some meta) = some (load_result_for_get objects meta)

  unfoldable pub peek_job : BlobStore → String → Option Dict
  unfolding read_meta load_from
  peek_job s id = load_from s.objects (read_meta id s)

  unfoldable pub get_job : String → Act BlobStore (Option Dict)
  unfolding peek_job
  get_job id s = (ok (peek_job s id), s)

  -- `if "result" in updates_copy: ... self._persist_result(...)`
  abbrev pub persist_update : String → Dict → Option Value → Objects → Objects × Dict
  persist_update id meta none objects = (objects, meta)
  persist_update id meta (some result) objects = persist_result id meta result objects

  unfoldable pub update_job : String → Dict → Act BlobStore (Unit {0})
  unfolding read_meta write_meta persist_result
  update_job id updates s =
      let meta = meta_or_new id (read_meta id s) in
      let (objects, meta') = persist_update id meta (lookup "result" updates) s.objects in
      let updated =
        insert "updated_at" (isoformat s.now) (update meta' (delete "result" updates)) in
      (ok tt, write_meta id updated (record s { objects = objects }))

  unfoldable pub complete_job : String → Dict → Act BlobStore (Unit {0})
  unfolding read_meta write_meta persist_result
  complete_job id result s =
      let meta = meta_or_new id (read_meta id s) in
      let closed = insert "error" null (insert "status" (text "completed") meta) in
      let (objects, meta') = persist_result id closed (obj result) s.objects in
      (
        ok tt,
        write_meta id (insert "updated_at" (isoformat s.now) meta')
            (record s { objects = objects }),
      )

  unfoldable pub fail_job : String → Dict → Act BlobStore (Unit {0})
  unfolding update_job
  fail_job id err =
      update_job id
        (entry "status" (text "failed") (entry "error" (obj err) (entry "result" null empty)))

  abbrev created_objects : String → Dict → Objects → Objects × Dict
  created_objects id meta objects = elim (lookup "result" meta) [
    | none ↦ (objects, meta)
    | some null ↦ (objects, meta)
    | some result ↦ persist_result id (delete "result" meta) result objects
  ]

  unfoldable pub create_job : String → Dict → Act BlobStore (Unit {0})
  unfolding write_meta persist_result
  create_job id record' s =
      let now = isoformat s.now in
      let named = set_default "job_id" (text id) record' in
      let dated = set_default "created_at" (or_value (lookup "created_at" named) now) named in
      let queued =
        set_default "queued_at"
          (or_value (lookup "queued_at" dated) (value_of (lookup "created_at" dated))) dated in
      let touched = set_default "updated_at" now queued in
      let limited = insert "expires_at" (compute_expires_at s.now cfg.ttl_days) touched in
      let (objects, meta) = created_objects id limited s.objects in
      (ok tt, write_meta id meta (record s { objects = objects }))
