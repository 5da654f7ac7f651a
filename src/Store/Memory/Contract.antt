-- ===== src/Store/Memory/Contract.antt =====
-- The store in memory fills the port of app/domain/ports/job_store.py and keeps its contract.
use automitizacion_hbi_capit.Base.{
  inr, true, String, ◌≡◌, refl, some, eq_refl, or_else, if◌then◌else◌, ◌==◌,
}
use automitizacion_hbi_capit.Json.{text_of, text, Dict}
use automitizacion_hbi_capit.Json.Ops.{lookup, is_unique, lookup-update_unique, update}
use automitizacion_hbi_capit.Store.{JobStore, KeepsFields}
use automitizacion_hbi_capit.Store.Memory.{
  MemoryJobStore, get_or_empty, create_job, get_job, update_job, complete_job, fail_job,
  append_event, acquire_lock, release_lock, is_lock_held, get_lock, cleanup_expired_lock,
}

abbrev pub memory_store : JobStore MemoryJobStore
memory_store = record {
  now = λ s. s.now;
  create_job = create_job;
  get_job = get_job;
  update_job = update_job;
  complete_job = complete_job;
  fail_job = fail_job;
  append_event = append_event;
  acquire_lock = acquire_lock;
  release_lock = release_lock;
  is_lock_held = is_lock_held;
  get_lock = get_lock;
  cleanup_expired_lock = cleanup_expired_lock;
}

text_of-update :
    (k : String) (d u : Dict) (v : String)
    → is_unique u ≡ true
    → lookup k u ≡ some (text v)
    → text_of (lookup k (update d u)) ≡ v
text_of-update k d u v uniq h = rw (lookup-update_unique d u k uniq, h)

-- The store in memory.
pub memory-KeepsFields : KeepsFields memory_store (λ s id. s.jobs id)
unfolding get_job update_job
memory-KeepsFields = record {
  get_job-peek = λ s id. refl;
  update_job-ok = λ s id u. refl;
  field-update_job = λ s id k u v _ _ uniq h _. rw (eq_refl id, text_of-update k _ u v uniq h);
  status-update_job_expired =
      λ s id u v _ uniq h _. inr (rw (eq_refl id, text_of-update "status" _ u v uniq h));
  field-update_job_other = λ s id j k u _ ne. rw ne;
}

-- The store in memory keeps the contract. After an update every field of the job is the one that is
-- written, where it is, and else the one that was there; all other jobs are as they were.
pub memory-Merges :
    (s : MemoryJobStore) (id j k : String) (u : Dict)
    → is_unique u ≡ true
    → let s' = (update_job id u s).1 in
      KeepsFields memory_store (λ q i. q.jobs i)
      × (lookup k (get_or_empty (s'.jobs id))
          ≡ or_else (lookup k u) (lookup k (get_or_empty (s.jobs id))))
      × (s'.jobs j ≡ (if id == j then s'.jobs id else s.jobs j))
unfolding update_job
memory-Merges s id j k u uniq = (
  memory-KeepsFields,
  rw (eq_refl id) (lookup-update_unique (get_or_empty (s.jobs id)) u k uniq),
  rw (eq_refl id) refl,
)
