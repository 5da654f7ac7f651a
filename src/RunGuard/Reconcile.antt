-- ===== src/RunGuard/Reconcile.antt =====
-- `reconcile_job_terminal` and `fail_job_if_still_running` of app/application/jobs/job_run_guard.py.
use mathlib.Core.Option.{some-injective}
use automitizacion_hbi_capit.Base.{
  String, ◌≡◌, refl, ◌≢◌, inl, inr, Bool, true, false, ◌&&◌, Option, none, some, ◌==◌, member,
  arith, Bool-cases, ◌∙◌, ap, eq→≡,
}
use automitizacion_hbi_capit.Json.{Value, null, text, obj, Dict, truthy}
use automitizacion_hbi_capit.Json.Ops.{lookup, is_unique}
use automitizacion_hbi_capit.Effects.{bind_from, bind_rule, ◌>>◌, pure, Result, ok, raised}
use automitizacion_hbi_capit.Store.{JobStore, KeepsFields, job_field}
use automitizacion_hbi_capit.Store.Memory.{isoformat}
use automitizacion_hbi_capit.RunGuard.{
  aborted_error, job_has_success_payload, or_value, closing_updates, is_running, status_of,
  terminal_statuses, reconcile_from, reconcile_job_terminal, fail_from, fail_job_if_still_running,
}

-- A terminal job is not running.
pub terminal-not_running :
    (job : Dict)
    → member (status_of job) terminal_statuses ≡ true
    → (status_of job == "running") ≡ false
terminal-not_running job h = elim (Bool-cases (status_of job == "running")) [
  | inl r ↦ let no : false ≡ true = rw (eq→≡ (status_of job) "running" r) at h in cc
  | inr n ↦ n
]

-- `is_running` is decided by the status field.
is_running-of_field :
    (job : Option Dict) (v : String)
    → job_field "status" job ≡ some v
    → is_running job ≡ (v == "running")
is_running-of_field none v h = cc
is_running-of_field (some job) v h = rw (some-injective _ _ h)

abbrev is_expired : Option Dict → Bool
is_expired none = false
is_expired (some job) = status_of job == "expired"

expired-field :
    (job : Option Dict) → is_expired job ≡ true → job_field "status" job ≡ some "expired"
expired-field none h = cc
expired-field (some job) h = ap some (eq→≡ (status_of job) "expired" h)

not_expired-field :
    (job : Option Dict) → is_expired job ≡ false → job_field "status" job ≢ some "expired"
not_expired-field none h e = cc
not_expired-field (some job) h e = let no : true ≡ false = rw (some-injective _ _ e) at h in cc

pub and-right : (a b : Bool) → (a && b) ≡ true → b ≡ true
and-right a b h = ground arith

module _ {S : Type 0} (st : JobStore S) (peek : S → String → Option Dict)
    (laws : KeepsFields st peek) where
  open laws use {get_job-peek, update_job-ok, field-update_job, status-update_job_expired}

  abbrev pub Idle : S → String → Type 0
  Idle s id = is_running (peek s id) ≡ false

  -- A write of another status than `running` leaves the job idle, also where it has expired.
  update_job-Idle :
      (s : S) (id v : String) (u : Dict)
      → (v == "running") ≡ false
      → is_unique u ≡ true
      → lookup "status" u ≡ some (text v)
      → lookup "expires_at" u ≡ none
      → Idle (st.update_job id u s).1 id
  update_job-Idle s id v u h uniq status expiry = elim (Bool-cases (is_expired (peek s id))) [
    | inl e ↦
        elim (status-update_job_expired s id u v (expired-field (peek s id) e) uniq status expiry) [
          | inl x ↦ is_running-of_field _ "expired" x
          | inr x ↦ is_running-of_field _ v x ∙ h
        ]
    | inr n ↦
        is_running-of_field _ v (
          field-update_job s id "status" u v refl (not_expired-field (peek s id) n) uniq status
            expiry)
        ∙ h
  ]

  pub closing-Idle :
      (s : S) (id v : String) (finished now err : Value)
      → (v == "running") ≡ false
      → Idle (st.update_job id (closing_updates v finished now err) s).1 id
  unfolding lookup is_unique
  closing-Idle s id v finished now err h = update_job-Idle s id v _ h refl refl refl

  reconcile_job_terminal-eq :
      (s : S) (id : String)
      → reconcile_job_terminal st id s ≡ reconcile_from st id (isoformat (st.now s)) (peek s id) s
  unfolding reconcile_job_terminal
  reconcile_job_terminal-eq s id = rw (get_job-peek s id)

  write_then :
      (s : S) (id : String) (u : Dict) (b : Bool)
      → (st.update_job id u >> pure b) s ≡ (ok b, (st.update_job id u s).1)
  write_then s id u b = rw (update_job-ok s id u, bind_from)

  -- What `reconcile_job_terminal` promises: it returns; True means that the job is not running, and
  -- False that nothing was written.
  abbrev pub Reconciled : S → String → Result Bool × S → Type 0
  Reconciled s id (ok true, s') = Idle s' id
  Reconciled s id (ok false, s') = s' ≡ s
  Reconciled s id (raised e, s') = ⊥

  reconcile_from-Reconciled :
      (s : S) (id : String) (now : Value) (job : Option Dict)
      → job ≡ peek s id
      → Reconciled s id (reconcile_from st id now job s)
  unfolding reconcile_from
  reconcile_from-Reconciled s id now none e = refl
  reconcile_from-Reconciled s id now (some job) e = elim (Bool-cases (truthy (obj job))) [
    | inr f ↦ rw f refl
    | inl t ↦ elim (Bool-cases (member (status_of job) terminal_statuses)) [
      | inl m ↦ rw (t, m, ← e) (terminal-not_running job m)
      | inr n ↦ elim (Bool-cases (status_of job == "running" && job_has_success_payload job)) [
        | inl c ↦
            rw (t, n, c, write_then s id)
              (closing-Idle s id "completed" (or_value (lookup "finished_at" job) now) now null
                refl)
        | inr c ↦ rw (t, n, c) refl
      ]
    ]
  ]

  pub reconcile_job_terminal-Reconciled :
      (s : S) (id : String) → Reconciled s id (reconcile_job_terminal st id s)
  reconcile_job_terminal-Reconciled s id =
      rw (reconcile_job_terminal-eq s id)
        (reconcile_from-Reconciled s id (isoformat (st.now s)) (peek s id) refl)

  -- A step that returns, and leaves the job idle.
  abbrev Done : String → Result (Unit {0}) × S → Type 0
  Done id r = (r.0 ≡ ok tt) × Idle r.1 id

  fail_from-Done :
      (s : S) (id reason : String) (now : Value)
      → Done id (fail_from st id reason now (peek s id) s)
  unfolding fail_from
  fail_from-Done s id reason now = elim (Bool-cases (is_running (peek s id))) [
    | inl r ↦
        rw r (update_job-ok s id _, closing-Idle s id "failed" now now (aborted_error reason) refl)
    | inr n ↦ rw n (refl, n)
  ]

  -- `fail_job_if_still_running` always returns, and then the job is not running.
  pub fail_job_if_still_running-Done :
      (s : S) (id reason : String) → Done id (fail_job_if_still_running st id reason s)
  unfolding fail_job_if_still_running
  fail_job_if_still_running-Done s id reason =
      bind_rule (Reconciled s id) (Done id) (reconcile_job_terminal st id) _ s
        (reconcile_job_terminal-Reconciled s id)
        (elim [
          | true ↦ λ s' h. (refl, h)
          | false ↦
              λ s' h. rw (get_job-peek s' id) (fail_from-Done s' id reason (isoformat (st.now s')))
        ])
        (λ e s' h. absurd h)
