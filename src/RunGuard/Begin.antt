-- ===== src/RunGuard/Begin.antt =====
-- `begin_job_execution` of app/application/jobs/job_run_guard.py: who may run a job.
use mathlib.Core.Option.{some-injective}
use automitizacion_hbi_capit.Base.{
  eq→≡, String, ◌≡◌, refl, ◌≢◌, ◌⊎◌, inl, inr, Bool, true, false, ◌&&◌, ◌||◌, Option, none, some,
  ◌==◌, member, arith, Bool-cases,
}
use automitizacion_hbi_capit.Json.{Value, text, Dict, text_of}
use automitizacion_hbi_capit.Json.Ops.{
  lookup, is_unique, insert, lookup-update_unique, lookup-insert, is_unique-update,
  is_unique-insert,
}
use automitizacion_hbi_capit.Effects.{
  Reason, already, already_running, unexpected, skipped, Result, ok, raised,
}
use automitizacion_hbi_capit.Store.{JobStore, KeepsFields, job_field}
use automitizacion_hbi_capit.Store.Memory.{isoformat}
use automitizacion_hbi_capit.RunGuard.{
  running_updates, begin_from, begin_job_execution, status_of, terminal_statuses,
}

-- A job that may be started: there is none yet, it is queued, or a workflow took it and has not
-- begun.
abbrev pub may_begin : Option Dict → Bool
may_begin none = true
may_begin (some job) =
    status_of job == "queued"
    || (status_of job == "running"
        && text_of (lookup "execution_phase" job) == "workflow_dispatched")

or-and_cases : (a b c : Bool) → (a || (b && c)) ≡ true → (a ≡ true) ⊎ ((b ≡ true) × (c ≡ true))
or-and_cases a b c h = ground arith

not_or-and : (a b c : Bool) → (a || (b && c)) ≡ false → (a ≡ false) × (b ≡ true → c ≡ false)
not_or-and a b c h = ground arith

-- What the callers pass as `extra_updates`: a dictionary without the fields of the protocol.
pub record IsExtra (extra : Dict) : Type 0 where
  pub unique : is_unique extra ≡ true
  pub no_status : lookup "status" extra ≡ none
  pub no_phase : lookup "execution_phase" extra ≡ none
  pub no_expiry : lookup "expires_at" extra ≡ none

-- The updates that a runner writes, in the form that the contract asks for.
record IsStart (u : Dict) : Type 0 where
  unique : is_unique u ≡ true
  status : lookup "status" u ≡ some (text "running")
  phase : lookup "execution_phase" u ≡ some (text "executing")
  no_expiry : lookup "expires_at" u ≡ none

running_updates-IsStart :
    (now : Value) (extra : Dict) → IsExtra extra → IsStart (running_updates now extra)
unfolding lookup is_unique
running_updates-IsStart now extra e = record {
  unique = is_unique-update _ extra refl;
  status = rw (lookup-update_unique _ extra "status" e.unique, e.no_status);
  phase = rw (lookup-update_unique _ extra "execution_phase" e.unique, e.no_phase);
  no_expiry = rw (lookup-update_unique _ extra "expires_at" e.unique, e.no_expiry);
}

insert-IsStart : (u : Dict) → IsStart u → IsStart (insert "execution_phase" (text "executing") u)
insert-IsStart u s = record {
  unique = is_unique-insert _ _ u s.unique;
  status = rw (lookup-insert "execution_phase" "status") s.status;
  phase = rw (lookup-insert "execution_phase" "execution_phase");
  no_expiry = rw (lookup-insert "execution_phase" "expires_at") s.no_expiry;
}

module _ {S : Type 0} (st : JobStore S) (peek : S → String → Option Dict)
    (laws : KeepsFields st peek) where
  open laws use {get_job-peek, update_job-ok, field-update_job}

  -- After a write of the updates the job is running, and executing.
  abbrev Started : String → Result (Unit {0}) × S → Type 0
  Started id r =
      (r.0 ≡ ok tt)
      × (job_field "status" (peek r.1 id) ≡ some "running")
      × (job_field "execution_phase" (peek r.1 id) ≡ some "executing")

  update_job-Started :
      (s : S) (id : String) (u : Dict)
      → job_field "status" (peek s id) ≢ some "expired"
      → IsStart u
      → Started id (st.update_job id u s)
  update_job-Started s id u fresh i = (
    update_job-ok s id u,
    field-update_job s id "status" u "running" refl fresh i.unique i.status i.no_expiry,
    field-update_job s id "execution_phase" u "executing" refl fresh i.unique i.phase i.no_expiry,
  )

  begin_job_execution-eq :
      (s : S) (id : String) (extra : Dict)
      → begin_job_execution st id extra s
        ≡ begin_from st id (running_updates (isoformat (st.now s)) extra) (peek s id) s
  unfolding begin_job_execution
  begin_job_execution-eq s id extra = rw (get_job-peek s id)

  may_begin-fresh :
      (job : Option Dict) → may_begin job ≡ true → job_field "status" job ≢ some "expired"
  may_begin-fresh none h e = cc
  may_begin-fresh (some job) h e =
      let expired : status_of job ≡ "expired" = some-injective _ _ e in
      let no : false ≡ true = rw expired at h in cc

  begin_from-Started :
      (s : S) (id : String) (u : Dict) (job : Option Dict)
      → job_field "status" (peek s id) ≢ some "expired"
      → IsStart u
      → may_begin job ≡ true
      → Started id (begin_from st id u job s)
  unfolding begin_from
  begin_from-Started s id u none fresh i h = update_job-Started s id u fresh i
  begin_from-Started s id u (some job) fresh i h =
      elim (or-and_cases (status_of job == "queued") (status_of job == "running")
        (text_of (lookup "execution_phase" job) == "workflow_dispatched") h) [
          | inl q ↦ rw (eq→≡ (status_of job) "queued" q) (update_job-Started s id u fresh i)
          | inr (r, d) ↦
              rw
                (
                  eq→≡ (status_of job) "running" r,
                  eq→≡ (text_of (lookup "execution_phase" job)) "workflow_dispatched" d,
                )
                (update_job-Started s id _ fresh (insert-IsStart u i))
        ]

  begin_from-skipped :
      (s : S) (id : String) (u : Dict) (job : Option Dict)
      → may_begin job ≡ false
      → (reason : Reason) × (begin_from st id u job s ≡ (raised (skipped reason), s))
  unfolding begin_from
  begin_from-skipped s id u none h = cc
  begin_from-skipped s id u (some job) h =
      let (nq, nr) =
        not_or-and (status_of job == "queued") (status_of job == "running")
          (text_of (lookup "execution_phase" job) == "workflow_dispatched") h in
      elim (Bool-cases (member (status_of job) terminal_statuses)) [
        | inl t ↦ (already (status_of job), rw t)
        | inr f ↦ elim (Bool-cases (status_of job == "running")) [
          | inl r ↦ (already_running, rw (f, r, nr r))
          | inr n ↦ (unexpected (status_of job), rw (f, n, nq))
        ]
      ]

  -- `begin_job_execution` starts a job exactly if `may_begin` allows it: then it returns and the job is
  -- running and executing. In every other case it raises `JobExecutionSkipped` and changes nothing.
  pub begin_job_execution_decides :
      (s : S) (id : String) (extra : Dict)
      → IsExtra extra
      → (may_begin (peek s id) ≡ true → Started id (begin_job_execution st id extra s))
        × (may_begin (peek s id) ≡ false
            → (reason : Reason) × (begin_job_execution st id extra s
                ≡ (raised (skipped reason), s)))
  begin_job_execution_decides s id extra e = rw (begin_job_execution-eq s id extra) (
    λ h.
        begin_from-Started s id _ (peek s id) (may_begin-fresh _ h)
          (running_updates-IsStart _ extra e) h,
    begin_from-skipped s id _ (peek s id),
  )

  not-may_begin_of_Started :
      (job : Option Dict)
      → job_field "status" job ≡ some "running"
      → job_field "execution_phase" job ≡ some "executing"
      → may_begin job ≡ false
  not-may_begin_of_Started none a b = cc
  not-may_begin_of_Started (some job) a b = rw (some-injective _ _ a, some-injective _ _ b)

  -- A job that a runner has begun is not begun again: the next runner to come is told so and writes
  -- nothing.
  pub begin_job_execution_once :
      (s : S) (id : String) (first second : Dict)
      → IsExtra first
      → IsExtra second
      → may_begin (peek s id) ≡ true
      → let s' = (begin_job_execution st id first s).1 in
        (reason : Reason) × (begin_job_execution st id second s' ≡ (raised (skipped reason), s'))
  begin_job_execution_once s id first second e f h =
      let (_, running, executing) = (begin_job_execution_decides s id first e).0 h in
      (begin_job_execution_decides _ id second f).1 (not-may_begin_of_Started _ running executing)
