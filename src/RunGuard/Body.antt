-- ===== src/RunGuard/Body.antt =====
-- `run_job_body` of app/application/jobs/job_run_guard.py, and how a job stands at its end.
use automitizacion_hbi_capit.Base.{
  String, ◌≡◌, refl, ◌⊎◌, inl, inr, Bool, true, false, ◌&&◌, Option, none, some, member, Bool-cases,
  ◌∙◌,
}
use automitizacion_hbi_capit.Json.{obj, Dict, truthy}
use automitizacion_hbi_capit.Effects.{
  Reason, reraise, bind_from, bind_rule, skipped, error, Result, ok, raised, Act,
}
use automitizacion_hbi_capit.Store.{JobStore, KeepsFields}
use automitizacion_hbi_capit.RunGuard.{
  flag_of, error_value, is_running, is_terminal, status_of, terminal_statuses,
  reconcile_job_terminal, run_and_check, persist_failure, handle, settle, run_job_body,
}
use automitizacion_hbi_capit.RunGuard.Reconcile.{
  Idle, closing-Idle, Reconciled, reconcile_job_terminal-Reconciled, fail_job_if_still_running-Done,
  terminal-not_running, and-right,
}

-- An action that was told that another runner has the job.
abbrev pub IsSkipped : Result (Unit {0}) → Type 0
IsSkipped ex = (reason : Reason) × (ex ≡ raised (skipped reason))

module _ {S : Type 0} (st : JobStore S) (peek : S → String → Option Dict)
    (laws : KeepsFields st peek) where
  open laws use {get_job-peek, update_job-ok, field-update_job, status-update_job_expired}

  -- What the `try` block leaves, by what `execute` did.
  abbrev Checked : String → Result (Unit {0}) → Result Bool × S → Type 0
  Checked id ex (ok true, s') = Idle st peek laws s' id
  Checked id ex (ok false, s') = Unit {0}
  Checked id ex (raised e, s') = ex ≡ raised e

  -- What the handlers leave.
  abbrev Handled : String → Result (Unit {0}) → Result Bool × S → Type 0
  Handled id ex (ok true, s') = Idle st peek laws s' id ⊎ IsSkipped ex
  Handled id ex (ok false, s') = Unit {0}
  Handled id ex (raised e, s') = ⊥

  check_read :
      (s : S) (id : String) (ex : Result (Unit {0}))
      → Checked id ex (ok (is_terminal (peek s id)), s)
  check_read s id ex = terminal-Checked (peek s id) refl
    where
      terminal-Checked :
          (job : Option Dict) → job ≡ peek s id → Checked id ex (ok (is_terminal job), s)
      terminal-Checked none e = tt
      terminal-Checked (some job) e =
          elim (Bool-cases (truthy (obj job) && member (status_of job) terminal_statuses)) [
            | inl t ↦
                rw (t, ← e)
                  (terminal-not_running job
                    (and-right (truthy (obj job)) (member (status_of job) terminal_statuses) t))
            | inr f ↦ rw f tt
          ]

  run_and_check-Checked :
      (s : S) (id : String) (execute : Act S (Unit {0}))
      → Checked id (execute s).0 (run_and_check st id execute s)
  unfolding run_and_check
  run_and_check-Checked s id execute =
      bind_rule (λ r. (execute s).0 ≡ r.0) (Checked id (execute s).0) execute _ s refl
        (λ _ s1 _.
          bind_rule (Reconciled st peek laws s1 id) (Checked id (execute s).0)
            (reconcile_job_terminal st id) _ s1
            (reconcile_job_terminal-Reconciled st peek laws s1 id)
            (elim [
              | true ↦ λ s' h. h
              | false ↦ λ s' h. rw (get_job-peek s' id) (check_read s' id (execute s).0)
            ])
            (λ e s' h. absurd h))
        (λ e s' h. h)

  persist_failure-Handled :
      (s : S) (id name msg : String) (ex : Result (Unit {0}))
      → Handled id ex (persist_failure st id (error name msg) s)
  unfolding persist_failure
  persist_failure-Handled s id name msg ex =
      rw (update_job-ok s id _)
        (inl (closing-Idle st peek laws s id "failed" _ _ (error_value name msg) refl))

  -- The handlers return. `terminal` is true after them only if the job is not running, or if
  -- `execute` was told that another runner has the job.
  handle-Handled :
      (s : S) (id : String) (ex : Result (Unit {0})) (r : Result Bool)
      → Checked id ex (r, s)
      → Handled id ex (handle st id r s)
  unfolding handle
  handle-Handled s id ex (ok true) h = inl h
  handle-Handled s id ex (ok false) h = tt
  handle-Handled s id ex (raised (skipped reason)) h =
      bind_rule (Reconciled st peek laws s id) (Handled id ex) (reconcile_job_terminal st id) _ s
        (reconcile_job_terminal-Reconciled st peek laws s id)
        (elim [ true ↦ λ s' i. inl i | false ↦ λ s' i. rw (get_job-peek s' id) (inr (reason, h)) ])
        (λ e s' i. absurd i)
  handle-Handled s id ex (raised (error name msg)) h =
      bind_rule (Reconciled st peek laws s id) (Handled id ex) (reconcile_job_terminal st id) _ s
        (reconcile_job_terminal-Reconciled st peek laws s id)
        (elim [ true ↦ λ s' i. inl i | false ↦ λ s' i. persist_failure-Handled s' id name msg ex ])
        (λ e s' i. absurd i)

  -- The end of a run: it returns, and the job is idle unless `execute` was skipped.
  abbrev Settled : String → Result (Unit {0}) → Result (Unit {0}) × S → Type 0
  Settled id ex r = (r.0 ≡ ok tt) × (Idle st peek laws r.1 id ⊎ IsSkipped ex)

  module _ (id : String) (finish_lock : Act S (Unit {0}))
      (keeps : (s : S) → is_running (peek (finish_lock s).1 id) ≡ is_running (peek s id)) where
    settle-Settled :
        (s : S) (reason : String) (ex : Result (Unit {0})) (terminal : Bool)
        → Handled id ex (ok terminal, s)
        → Settled id ex (settle st id reason finish_lock terminal s)
    unfolding settle
    settle-Settled s reason ex true (inl i) = (refl, inl (keeps s ∙ i))
    settle-Settled s reason ex true (inr k) = (refl, inr k)
    settle-Settled s reason ex false h =
        bind_rule (Reconciled st peek laws (finish_lock s).1 id) (Settled id ex)
          (reconcile_job_terminal st id) _ (finish_lock s).1
          (reconcile_job_terminal-Reconciled st peek laws (finish_lock s).1 id)
          (elim [
            | true ↦ λ s' i. (refl, inl i)
            | false ↦ λ s' i.
                let done = fail_job_if_still_running-Done st peek laws s' id reason in
                (done.0, inl done.1)
          ])
          (λ e s' i. absurd i)

    close-Settled :
        (reason : String) (ex : Result (Unit {0})) (h : Result Bool × S)
        → Handled id ex h
        → Settled id ex (
            bind_from
              (settle st id reason finish_lock (flag_of h.0) h.1)
              (λ _. reraise (elim (h.0) [ ok _ ↦ ok tt | raised e ↦ raised e ])))
    close-Settled reason ex (ok terminal, s') i =
        bind_rule (Settled id ex) (Settled id ex) (settle st id reason finish_lock terminal)
          (λ _. reraise (ok tt)) s' (settle-Settled s' reason ex terminal i)
          (λ _ s'' d. (refl, d.1)) (λ e s'' d. cc)
    close-Settled reason ex (raised e, s') i = absurd i

    -- Whatever the job's action does, returns or raises, `run_job_body` returns, and then the job is
    -- not `running`; the one exception is an action that another runner has been found to do, by
    -- `JobExecutionSkipped`. The lock's release may raise, and leaves the job alone.
    pub run_job_body_settles :
        (s : S) (reason : String) (execute : Act S (Unit {0}))
        → Settled id (execute s).0 (run_job_body st id reason finish_lock execute s)
    unfolding run_job_body
    run_job_body_settles s reason execute =
        let r = run_and_check st id execute s in
        close-Settled reason (execute s).0 (handle st id r.0 r.1)
          (handle-Handled r.1 id (execute s).0 r.0 (run_and_check-Checked s id execute))
