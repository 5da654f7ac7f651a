-- ===== src/Store.antt =====
-- app/domain/ports/job_store.py: the port that the job code uses, and what it relies on.
pub mod Memory
pub mod Blob
use automitizacion_hbi_capit.Base.{
  ◌⊎◌, List, [], ◌∷◌, member, ℕ, String, ◌≡◌, ◌≢◌, Bool, true, false, Option, none, some, ◌==◌,
}
use automitizacion_hbi_capit.Json.{Value, text, Dict, text_of}
use automitizacion_hbi_capit.Json.Ops.{lookup, is_unique}
use automitizacion_hbi_capit.Effects.{Result, ok, Act}

-- The `Protocol` over a state `S`. `now` is the clock that its methods and its callers read.
pub record JobStore (S : Type 0) : Type 0 where
  pub now : S → ℕ
  pub create_job : String → Dict → Act S (Unit {0})
  pub get_job : String → Act S (Option Dict)
  pub update_job : String → Dict → Act S (Unit {0})
  pub complete_job : String → Dict → Act S (Unit {0})
  pub fail_job : String → Dict → Act S (Unit {0})
  pub append_event : String → Dict → Act S (Unit {0})
  pub acquire_lock : String → String → ℕ → Act S Bool
  pub release_lock : String → String → Act S (Unit {0})
  pub is_lock_held : String → Act S Bool
  pub get_lock : String → Act S (Option Dict)
  pub cleanup_expired_lock : String → Act S Bool

-- `str(job.get(k) or "")` of the job that is found, if one is
abbrev pub job_field : String → Option Dict → Option String
job_field k none = none
job_field k (some job) = some (text_of (lookup k job))

-- The fields by which the runners of a job agree.
abbrev pub shared_fields : List String
shared_fields = "status" ∷ "execution_phase" ∷ []

-- The part of the contract that the life of a job rests on, at a store whose calls do not fail:
-- reads change nothing, a shared field that is written to a job that has not expired is the one that
-- is read back, and no write touches the shared fields of another job. `peek` is the job that
-- `get_job` returns.
pub record KeepsFields {S : Type 0} (st : JobStore S) (peek : S → String → Option Dict)
    : Type 0 where
  pub get_job-peek : (s : S) (id : String) → st.get_job id s ≡ (ok (peek s id), s)
  pub update_job-ok : (s : S) (id : String) (u : Dict) → (st.update_job id u s).0 ≡ ok tt
  pub field-update_job :
      (s : S) (id k : String) (u : Dict) (v : String)
      → member k shared_fields ≡ true
      → job_field "status" (peek s id) ≢ some "expired"
      → is_unique u ≡ true
      → lookup k u ≡ some (text v)
      → lookup "expires_at" u ≡ none
      → job_field k (peek (st.update_job id u s).1 id) ≡ some v
  pub status-update_job_expired :
      (s : S) (id : String) (u : Dict) (v : String)
      → job_field "status" (peek s id) ≡ some "expired"
      → is_unique u ≡ true
      → lookup "status" u ≡ some (text v)
      → lookup "expires_at" u ≡ none
      → let status = job_field "status" (peek (st.update_job id u s).1 id) in
        (status ≡ some "expired") ⊎ (status ≡ some v)
  pub field-update_job_other :
      (s : S) (id j k : String) (u : Dict)
      → member k shared_fields ≡ true
      → (id == j) ≡ false
      → job_field k (peek (st.update_job id u s).1 j) ≡ job_field k (peek s j)
