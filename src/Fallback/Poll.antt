-- ===== src/Fallback/Poll.antt =====
-- The polling of app/application/jobs/vercel_workflow_fallback.py ends.
use mathlib.Core.Path.{subst}
use automitizacion_hbi_capit.Base.{
  sym, ℕ, zero, suc, ◌+◌, ◌*◌, ◌<◌, ◌≤◌, String, ◌≡◌, ◌≢◌, refl, false, Option, none, some, inl,
  inr, Bool-cases, arith, ltb, member, ◌==◌, eqb,
}
use automitizacion_hbi_capit.Json.{Dict}
use automitizacion_hbi_capit.Effects.{◌>>◌, ◌>>=◌, Result, ok, Act, pure, bind_rule}
use automitizacion_hbi_capit.Store.{JobStore, KeepsFields}
use automitizacion_hbi_capit.RunGuard.{status_of, terminal_statuses}
use automitizacion_hbi_capit.Fallback.{
  Action, Settings, act_on, wait_or, look, last_look, go_on, poll_loop, poll_until_fallback_or_skip,
  should_run_fallback_for_running,
}

later_enough :
    (t t' deadline f i : ℕ) → deadline ≤ t + suc f * i → t + i ≤ t' → deadline ≤ t' + f * i
later_enough t t' deadline f i a b = omega arith

module _ {S : Type 0} (st : JobStore S) (peek : S → String → Option Dict)
    (laws : KeepsFields st peek) (cfg : Settings) (sleep : ℕ → Act S (Unit {0})) (message : String)
    (sleeps : (d : ℕ) (s : S) → st.now s + d ≤ st.now (sleep d s).1) where
  open laws use {get_job-peek}

  -- The polling has an answer, or a call that it made raised an exception.
  abbrev Answers : Result (Option Action) × S → Type 0
  Answers r = r.0 ≢ ok none

  -- A look that says to wait has changed nothing.
  abbrev Looked : S → Result (Option Action) × S → Type 0
  Looked s r = r.0 ≡ ok none → r.1 ≡ s

  wait_or-Looked :
      (s : S) (id : String) (a : Action) → Looked s (wait_or st cfg sleep message id a s)
  unfolding wait_or
  wait_or-Looked s id Action.run = λ h. refl
  wait_or-Looked s id Action.skip = λ h. refl
  wait_or-Looked s id Action.fail =
      bind_rule (λ r. Unit {0}) (Looked s) (act_on st cfg sleep message id Action.fail)
        (λ a. pure (some a)) s tt (λ a s' _ h. cc) (λ e s' _ h. cc)

  look-Looked :
      (s : S) (id : String) (now : ℕ) (job : Option Dict)
      → Looked s (look st cfg sleep message id now job s)
  unfolding look
  look-Looked s id now none = λ h. refl
  look-Looked s id now (some job) = elim (Bool-cases (member (status_of job) terminal_statuses)) [
    | inl t ↦ rw t (λ h. cc)
    | inr f ↦ elim (Bool-cases (status_of job == "queued")) [
      | inl q ↦ rw (f, q) (λ h. refl)
      | inr n ↦ rw (f, n) (wait_or-Looked s id (should_run_fallback_for_running cfg now job))
    ]
  ]

  last-Answers : (m : Act S Action) (s : S) → Answers ((m >>= λ a. pure (some a)) s)
  last-Answers m s =
      bind_rule (λ r. Unit {0}) Answers m (λ a. pure (some a)) s tt (λ a s' _ h. cc)
        (λ e s' _ h. cc)

  -- With the interval between two looks positive, fuel for one look more than fit into the time left
  -- is enough.
  poll_loop-Answers :
      (f : ℕ) (id : String) (deadline : ℕ) (s : S)
      → 0 < cfg.poll_interval
      → deadline ≤ st.now s + f * cfg.poll_interval
      → Answers (poll_loop st cfg sleep message (suc f) id deadline s)
  unfolding poll_loop
  poll_loop-Answers zero id deadline s pos enough =
      let late : ltb (st.now s) deadline ≡ false = ground arith in
      rw (late, get_job-peek s id)
        (last-Answers (last_look st cfg sleep message id (st.now s) (peek s id)) s)
  poll_loop-Answers (suc f) id deadline s pos enough = elim (Bool-cases (ltb (st.now s) deadline)) [
    | inr late ↦
        rw (late, get_job-peek s id)
          (last-Answers (last_look st cfg sleep message id (st.now s) (peek s id)) s)
    | inl early ↦
        rw (early, get_job-peek s id)
          (bind_rule (Looked s) Answers (look st cfg sleep message id (st.now s) (peek s id))
            (λ seen.
              go_on st cfg sleep message seen
                (sleep cfg.poll_interval >> poll_loop st cfg sleep message (suc f) id deadline))
            s (look-Looked s id (st.now s) (peek s id))
            (elim [
              | some action ↦ λ s' _ h. cc
              | none ↦ λ s' q.
                  bind_rule (λ r. st.now s + cfg.poll_interval ≤ st.now r.1) Answers
                    (sleep cfg.poll_interval)
                    (λ _. poll_loop st cfg sleep message (suc f) id deadline) s'
                    (subst
                      (λ w. st.now s + cfg.poll_interval ≤ st.now (sleep cfg.poll_interval w).1)
                      (sym (q refl)) (sleeps cfg.poll_interval s))
                    (λ _ s2 t.
                      poll_loop-Answers f id deadline s2 pos
                        (later_enough (st.now s) (st.now s2) deadline f cfg.poll_interval enough t))
                    (λ e s2 t h. cc)
            ])
            (λ e s' _ h. cc))
  ]

  -- The polling ends, where an interval is positive and a sleep lasts as long as it is told: with the
  -- fuel of one look more than the intervals that cover the waiting time it gives an action, or a call
  -- that it made raised an exception.
  pub poll_until_fallback_or_skip-Answers :
      (f : ℕ) (s : S) (id : String)
      → 0 < cfg.poll_interval
      → cfg.workflow_wait ≤ f * cfg.poll_interval
      → Answers (poll_until_fallback_or_skip st cfg sleep message (suc f) id s)
  unfolding poll_until_fallback_or_skip
  poll_until_fallback_or_skip-Answers f s id pos enough =
      elim (Bool-cases (eqb cfg.workflow_wait 0)) [
        | inl z ↦ rw z (λ h. cc)
        | inr n ↦ rw n (poll_loop-Answers f id (st.now s + cfg.workflow_wait) s pos (ground arith))
      ]
