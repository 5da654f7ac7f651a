-- ===== src/Jobs/Guarded.antt =====
-- What the shape of the jobs of app/application/jobs gives, whatever their use cases do.
use automitizacion_hbi_capit.Base.{◌-◌, String, ◌≡◌, ◌≢◌, refl, true, false, Option, none, some}
use automitizacion_hbi_capit.Json.{Value, num, text, Dict}
use automitizacion_hbi_capit.Json.Ops.{lookup, is_unique}
use automitizacion_hbi_capit.Effects.{Exn, Result, ok, raised, Act, ◌>>=◌, gets, bind_from}
use automitizacion_hbi_capit.Store.{JobStore, KeepsFields, job_field}
use automitizacion_hbi_capit.Store.Memory.{isoformat}
use automitizacion_hbi_capit.RunGuard.{begin_job_execution}
use automitizacion_hbi_capit.RunGuard.Begin.{may_begin, IsExtra, begin_job_execution_decides}
use automitizacion_hbi_capit.Jobs.{try_use_case, persist_exception, run_guarded}

-- How a job has to end by what its use case gave.
abbrev pub outcome : {R : Type 0} → Result R → String
outcome (ok _) = "completed"
outcome (raised _) = "failed"

-- Updates that end a job with a status.
abbrev pub Closes : String → Dict → Type 0
Closes v u =
    (is_unique u ≡ true) × (lookup "status" u ≡ some (text v)) × (lookup "expires_at" u ≡ none)

module _ {S : Type 0} (st : JobStore S) (peek : S → String → Option Dict)
    (laws : KeepsFields st peek) where
  open laws use {update_job-ok, field-update_job}

  abbrev Fresh : S → String → Type 0
  Fresh s id = job_field "status" (peek s id) ≢ some "expired"

  -- The call returns, and the status is `v`.
  abbrev pub Ends : String → String → Result (Unit {0}) × S → Type 0
  Ends id v r = (r.0 ≡ ok tt) × (job_field "status" (peek r.1 id) ≡ some v)

  closing-Ends :
      (s : S) (id v : String) (u : Dict)
      → Fresh s id
      → Closes v u
      → Ends id v (st.update_job id u s)
  closing-Ends s id v u fresh (uniq, status, expiry) =
      (update_job-ok s id u, field-update_job s id "status" u v refl fresh uniq status expiry)

  -- What the `try` block leaves.
  abbrev Tried : {R : Type 0} → String → Result R → Result (Unit {0}) × S → Type 0
  Tried id (ok x) r = Ends id "completed" r
  Tried id (raised e) r = (r.0 ≡ raised e) × Fresh r.1 id

  module _ {R : Type 0} (id : String) (finished : R → Value → Value → Dict)
      (failed : Exn → Value → Dict)
      (finishes : (x : R) (elapsed now : Value) → Closes "completed" (finished x elapsed now))
      (fails : (e : Exn) (now : Value) → Closes "failed" (failed e now)) where
    try-Tried :
        (s : S) (use_case : Act S R)
        → Fresh (use_case s).1 id
        → Tried id (use_case s).0 (try_use_case st id use_case finished s)
    unfolding try_use_case
    try-Tried s use_case = from_run (use_case s)
      where
        from_run :
            (r : Result R × S)
            → Fresh r.1 id
            → Tried id r.0 (
                bind_from r (λ x. gets st.now >>= λ ended.
                st.update_job id (finished x (num (ended - st.now s)) (isoformat ended))))
        from_run (ok x, s') fresh = closing-Ends s' id "completed" _ fresh (finishes x _ _)
        from_run (raised e, s') fresh = (refl, fresh)

    persist-Ends :
        (r : Result R) (t : Result (Unit {0}) × S)
        → Tried id r t
        → Ends id (outcome r) (persist_exception st id failed t.0 t.1)
    unfolding persist_exception
    persist-Ends (ok x) (t, s) (returned, status) = rw returned (refl, status)
    persist-Ends (raised e) (t, s) (raised_it, fresh) =
        rw raised_it (closing-Ends s id "failed" _ fresh (fails e _))

    -- A job of this shape that may begin runs its use case, returns, and ends as `completed` if the use
    -- case returned and as `failed` if it raised, provided the job has not expired meanwhile; a job that
    -- may not begin is left alone, its use case not run.
    pub run_guarded_closes :
        (s : S) (extra : Dict) (use_case : Act S R)
        → IsExtra extra
        → let s1 = (begin_job_execution st id extra s).1 in
          (may_begin (peek s id) ≡ true
            → Fresh (use_case s1).1 id
            → Ends id
                (outcome (use_case s1).0)
                (run_guarded st id extra use_case finished failed s))
          × (may_begin (peek s id) ≡ false
              → run_guarded st id extra use_case finished failed s ≡ (ok tt, s))
    unfolding run_guarded
    run_guarded_closes s extra use_case e =
        let decides = begin_job_execution_decides st peek laws s id extra e in
        (
          λ h fresh. rw ((decides.0 h).0) (persist-Ends _ _ (try-Tried _ use_case fresh)),
          λ h. rw ((decides.1 h).1) refl,
        )
