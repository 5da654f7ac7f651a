-- ===== src/Fallback.antt =====
-- app/application/jobs/vercel_workflow_fallback.py: the API takes over a job that the workflow's
-- worker does not run. Times are microseconds, and the settings are what the environment's variables
-- give. `asyncio.sleep` is an action of the world: other tasks run meanwhile, and the clock moves.
pub mod Poll
pub mod Claim
use automitizacion_hbi_capit.Base.{
  ℕ, zero, suc, ◌+◌, String, Bool, true, false, not, Option, none, some, ◌==◌, leb, ltb, eqb,
  member, if◌then◌else◌,
}
use automitizacion_hbi_capit.Json.{Value, text, obj, Dict, empty, entry, holds, text_of}
use automitizacion_hbi_capit.Json.Ops.{lookup}
use automitizacion_hbi_capit.Locks.{iso_of, parse_expires_at}
use automitizacion_hbi_capit.Effects.{
  Result, ok, raised, Act, pure, ◌>>=◌, ◌>>◌, attempt, reraise, gets, assign,
}
use automitizacion_hbi_capit.Store.{JobStore}
use automitizacion_hbi_capit.Store.Memory.{isoformat}
use automitizacion_hbi_capit.RunGuard.{status_of, terminal_statuses, closing_updates}

pub data Action : Type 0 where
  run skip fail : Action

pub record Settings : Type 0 where
  pub takeover : ℕ
  pub stale_running : ℕ
  pub workflow_wait : ℕ
  pub poll_interval : ℕ

-- `_parse_iso` reads a timestamp as `parse_expires_at` does.
unfoldable pub parse_iso : Dict → Option ℕ
parse_iso job = parse_expires_at (iso_of (lookup "started_at" job))

-- `_running_stale_seconds(job)` is not None and at least `limit`
unfoldable pub stale_for : ℕ → Dict → ℕ → Bool
unfolding parse_iso
stale_for now job limit = elim (parse_iso job) [
  | none ↦ false
  | some started ↦ leb (started + limit) now
]

unfoldable pub should_run_fallback_for_running : Settings → ℕ → Dict → Action
unfolding stale_for
should_run_fallback_for_running cfg now job =
    if member (status_of job) terminal_statuses
    then skip
    else if not (status_of job == "running")
    then run
    else if text_of (lookup "execution_phase" job) == "workflow_dispatched"
    then (if stale_for now job cfg.takeover then run else skip)
    else if stale_for now job cfg.stale_running
    then fail
    else skip

-- The message of the source gives the seconds and the label; here it is the `message` of the caller.
abbrev pub stale_error : String → Value
stale_error message = obj (
    entry "type" (text "JobStaleRunning")
      (entry "message" (text message) (entry "error_code" (text "job_stuck_running") empty)))

-- The API process: its store, and `_fallback_runner_job_ids`.
pub record Process (S : Type 0) : Type 0 where
  pub store : S
  pub claimed : String → Bool

abbrev pub on_store : {S A : Type 0} → Act S A → Act (Process S) A
on_store m p = let r = m p.store in (r.0, record p { store = r.1 })

module _ {S : Type 0} (st : JobStore S) (cfg : Settings) (sleep : ℕ → Act S (Unit {0}))
    (message : String) where
  unfoldable pub mark_stale_running_failed : String → Act S (Unit {0})
  mark_stale_running_failed id = do
    now ← gets st.now
    st.update_job id
        (closing_updates "failed" (isoformat now) (isoformat now) (stale_error message))

  -- What the polling does with an action for a running job, where it does not wait.
  unfoldable pub act_on : String → Action → Act S Action
  unfolding mark_stale_running_failed
  act_on id run = pure run
  act_on id fail = mark_stale_running_failed id >> pure skip
  act_on id skip = pure skip

  -- The same in the loop, which waits where another runner is at work.
  unfoldable pub wait_or : String → Action → Act S (Option Action)
  unfolding act_on
  wait_or id run = pure (some run)
  wait_or id fail = act_on id fail >>= λ a. pure (some a)
  wait_or id skip = pure none

  -- One look of the loop: `none` for waiting.
  unfoldable pub look : String → ℕ → Option Dict → Act S (Option Action)
  unfolding wait_or
  look id now none = pure none
  look id now (some job) =
      if member (status_of job) terminal_statuses
      then pure (some skip)
      else if status_of job == "queued"
      then pure none
      else wait_or id (should_run_fallback_for_running cfg now job)

  -- The look after the deadline.
  unfoldable pub last_look : String → ℕ → Option Dict → Act S Action
  unfolding act_on should_run_fallback_for_running
  last_look id now none = pure run
  last_look id now (some job) =
      if member (status_of job) terminal_statuses
      then pure skip
      else if status_of job == "queued"
      then pure run
      else act_on id (should_run_fallback_for_running cfg now job)

  abbrev pub go_on : Option Action → Act S (Option Action) → Act S (Option Action)
  go_on (some action) rest = pure (some action)
  go_on none rest = rest

  -- The loop with its end, on fuel; `none` means that the fuel has run out.
  unfoldable pub poll_loop : ℕ → String → ℕ → Act S (Option Action)
  unfolding look last_look
  poll_loop zero id deadline = pure none
  poll_loop (suc fuel) id deadline = do
    now ← gets st.now
    if ltb now deadline
        then (do
          job ← st.get_job id
          seen ← look id now job
          go_on seen (sleep cfg.poll_interval >> poll_loop fuel id deadline))
        else (do job ← st.get_job id; action ← last_look id now job; pure (some action))

  unfoldable pub poll_until_fallback_or_skip : ℕ → String → Act S (Option Action)
  unfolding poll_loop
  poll_until_fallback_or_skip fuel id =
      if eqb cfg.workflow_wait 0
      then pure (some run)
      else (gets st.now >>= λ now. poll_loop fuel id (now + cfg.workflow_wait))

  abbrev finish_poll : Act S (Unit {0}) → Option Action → Act S (Unit {0})
  finish_poll execute (some run) = execute
  finish_poll execute _ = pure tt

  -- After the tests of the status: poll where a workflow has the job, then run.
  unfoldable pub poll_and_run : ℕ → String → Dict → Act S (Unit {0}) → Act S (Unit {0})
  unfolding poll_until_fallback_or_skip
  poll_and_run fuel id job execute =
      if holds (lookup "workflow_run_id" job)
      then (poll_until_fallback_or_skip fuel id >>= finish_poll execute)
      else execute

  -- What is done with a job that is found running.
  unfoldable pub run_by : ℕ → String → Dict → Act S (Unit {0}) → Action → Act S (Unit {0})
  unfolding poll_and_run mark_stale_running_failed
  run_by fuel id job execute run = poll_and_run fuel id job execute
  run_by fuel id job execute skip = pure tt
  run_by fuel id job execute fail = mark_stale_running_failed id

  unfoldable pub run_found : ℕ → String → ℕ → Option Dict → Act S (Unit {0}) → Act S (Unit {0})
  unfolding poll_and_run run_by should_run_fallback_for_running
  run_found fuel id now none execute = pure tt
  run_found fuel id now (some job) execute =
      if member (status_of job) terminal_statuses
      then pure tt
      else if status_of job == "running"
      then run_by fuel id job execute (should_run_fallback_for_running cfg now job)
      else if not (status_of job == "queued")
      then pure tt
      else poll_and_run fuel id job execute

  -- The body of the `try` block of `run_job_if_still_queued`.
  unfoldable pub run_after_delay : ℕ → String → ℕ → Act S (Unit {0}) → Act S (Unit {0})
  unfolding run_found
  run_after_delay fuel id delay execute = do
    sleep delay
    job ← st.get_job id
    now ← gets st.now
    run_found fuel id now job execute

  abbrev claim : String → Bool → Act (Process S) (Unit {0})
  claim id b p = (ok tt, record p { claimed = λ j. if id == j then b else p.claimed j })

  -- `_try_claim_fallback_runner`
  unfoldable pub try_claim : String → Act (Process S) Bool
  try_claim id p = if p.claimed id then (ok false, p) else (ok true, (claim id true p).1)

  -- `_release_fallback_runner`
  unfoldable pub release_claim : String → Act (Process S) (Unit {0})
  release_claim id = claim id false

  -- `try: ... finally: release` where the claim was made
  unfoldable pub run_claimed : ℕ → String → ℕ → Act S (Unit {0}) → Bool → Act (Process S) (Unit {0})
  unfolding run_after_delay release_claim
  run_claimed fuel id delay execute false = pure tt
  run_claimed fuel id delay execute true = do
    r ← attempt (on_store (run_after_delay fuel id delay execute))
    release_claim id
    reraise r

  unfoldable pub run_job_if_still_queued :
      ℕ → String → ℕ → Act S (Unit {0}) → Act (Process S) (Unit {0})
  unfolding try_claim run_claimed
  run_job_if_still_queued fuel id delay execute = try_claim id >>= run_claimed fuel id delay execute
