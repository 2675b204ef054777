-- ===== src/E2e/Suites/Scheduling.antt =====
-- Suites 4 and 5: scheduled jobs and cancellation.
use job_queue_event_processi.Prelude.{[], ◌∷◌}
use job_queue_event_processi.Js.Value.{is_str}
use job_queue_event_processi.Js.Outcome.{Script, ◌>>=◌, ◌>>◌}
use job_queue_event_processi.Js.Env.{Env}
use job_queue_event_processi.Js.Http.{wait, read_prop, IsPlain}
use job_queue_event_processi.Js.Compare.{is_string}
use job_queue_event_processi.E2e.Polling.{includes, get_job, get_job-IsPlain}
use job_queue_event_processi.E2e.Totals.{ArePlain, assert}
use job_queue_event_processi.E2e.Verdict.{Suite}
use job_queue_event_processi.E2e.Suites.Steps.{
  typed, timed, create_job, cancel_job, local_time, expect_200, steps,
}

module _ (env : Env) where
  open env use {World}

  unfoldable pub starts_pending : Script World (Unit {0})
  starts_pending = do
    time ← local_time env 2
    res ← create_job env (timed "LOG" "scheduled-test" time)
    expect_200 env res
    status ← read_prop env res.body "status"
    assert env (is_str status "PENDING") "Expected PENDING"
    wait env 3000
    id ← read_prop env res.body "id"
    check ← get_job env id
    later ← read_prop env check.body "status"
    assert env (includes ("PENDING" ∷ "SCHEDULED" ∷ []) later) "Expected PENDING or SCHEDULED"

  unfoldable pub dispatches_at_once : Script World (Unit {0})
  dispatches_at_once = do
    res ← create_job env (typed "LOG" "immediate-dispatch")
    expect_200 env res
    status ← read_prop env res.body "status"
    assert env (includes ("QUEUED" ∷ "PROCESSING" ∷ "COMPLETED" ∷ []) status)
        "Expected immediate dispatch status"

  abbrev pub suite4 : Suite env
  suite4 = (
    "4 — Scheduled Job",
    ("Job with future time starts as PENDING", starts_pending)
        ∷ ("Immediate job (no time) dispatches right away", dispatches_at_once)
        ∷ [],
  )

  unfoldable pub cancel_scheduled : Script World (Unit {0})
  cancel_scheduled = do
    time ← local_time env 5
    res ← create_job env (timed "LOG" "cancel-test" time)
    expect_200 env res
    id ← read_prop env res.body "id"
    cancel_res ← cancel_job env id
    expect_200 env cancel_res
    assert env (is_string cancel_res.body) "Should return string response"

  unfoldable pub cancel_immediate : Script World (Unit {0})
  cancel_immediate = do
    res ← create_job env (typed "LOG" "fast-cancel")
    id ← read_prop env res.body "id"
    cancel_res ← cancel_job env id
    expect_200 env cancel_res
    wait env 5000
    check ← get_job env id
    status ← read_prop env check.body "status"
    assert env (includes ("CANCELLED" ∷ "COMPLETED" ∷ []) status) "Expected CANCELLED or COMPLETED"

  abbrev pub suite5 : Suite env
  suite5 = (
    "5 — Job Cancellation",
    ("Cancelled job reaches CANCELLED status", cancel_scheduled)
        ∷ ("Immediate job can be cancelled before processing", cancel_immediate)
        ∷ [],
  )

  starts_pending-IsPlain : IsPlain env starts_pending
  unfolding starts_pending
  starts_pending-IsPlain = search (steps, get_job-IsPlain) depth 40

  dispatches_at_once-IsPlain : IsPlain env dispatches_at_once
  unfolding dispatches_at_once
  dispatches_at_once-IsPlain = search steps depth 40

  cancel_scheduled-IsPlain : IsPlain env cancel_scheduled
  unfolding cancel_scheduled
  cancel_scheduled-IsPlain = search steps depth 40

  cancel_immediate-IsPlain : IsPlain env cancel_immediate
  unfolding cancel_immediate
  cancel_immediate-IsPlain = search (steps, get_job-IsPlain) depth 40

  pub suite4-ArePlain : ArePlain env suite4.1
  suite4-ArePlain = (starts_pending-IsPlain, (dispatches_at_once-IsPlain, tt))

  pub suite5-ArePlain : ArePlain env suite5.1
  suite5-ArePlain = (cancel_scheduled-IsPlain, (cancel_immediate-IsPlain, tt))
