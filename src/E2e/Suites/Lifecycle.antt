-- ===== src/E2e/Suites/Lifecycle.antt =====
-- Suites 2 and 3: the life of a job of type LOG and of type API.
use job_queue_event_processi.Prelude.{
  ℕ, zero, suc, String, Bool, true, false, not, if◌then◌else◌, List, [], ◌∷◌, arith,
}
use job_queue_event_processi.Js.Value.{Value, is_str}
use job_queue_event_processi.Js.Outcome.{Script, ◌>>=◌, ◌>>◌, return}
use job_queue_event_processi.Js.Env.{Env}
use job_queue_event_processi.Js.Http.{
  wait, read_prop, IsPlain, bind-IsPlain, return-IsPlain, prop-IsPlain,
}
use job_queue_event_processi.Js.Compare.{is_null}
use job_queue_event_processi.E2e.Polling.{includes, get_job, poll_job_status, get_job-IsPlain}
use job_queue_event_processi.E2e.Polling.Clock.{poll_job_status-IsPlain}
use job_queue_event_processi.E2e.Totals.{ArePlain, assert}
use job_queue_event_processi.E2e.Verdict.{Suite}
use job_queue_event_processi.E2e.Suites.Steps.{
  typed, create_job, expect_200, steps, create_job-IsPlain,
}

module _ (env : Env) where
  open env use {World, template}

  unfoldable pub log_completes : Script World (Unit {0})
  log_completes = do
    res ← create_job env (typed "LOG" "lifecycle-log-test")
    expect_200 env res
    id ← read_prop env res.body "id"
    job ← poll_job_status env ("COMPLETED" ∷ []) id 15000 500
    assert env (not (is_null job)) "Job polling timed out"
    status ← read_prop env job "status"
    assert env (is_str status "COMPLETED") "Expected COMPLETED"

  -- The loop that creates the jobs from number `i` on, `n` of them.
  unfoldable pub create_logs : (i n : ℕ) → Script World (List Value)
  create_logs i zero = return []
  create_logs i (suc n) = do
    res ← create_job env (typed "LOG" (template "multi-log-" i))
    id ← read_prop env res.body "id"
    ids ← create_logs (suc i) n
    return (id ∷ ids)

  -- `allCompleted` after the loop over the jobs, which looks at each of them.
  unfoldable pub all_completed : List Value → Bool → Script World Bool
  all_completed [] so_far = return so_far
  all_completed (id ∷ ids) so_far = do
    res ← get_job env id
    status ← read_prop env res.body "status"
    all_completed ids (if not (is_str status "COMPLETED") then false else so_far)

  unfoldable pub several_complete : Script World (Unit {0})
  several_complete = do
    ids ← create_logs 0 5
    wait env 8000
    ok ← all_completed ids true
    assert env ok "Not all LOG jobs reached COMPLETED"

  abbrev pub suite2 : Suite env
  suite2 = (
    "2 — Job Lifecycle (LOG type)",
    ("LOG job reaches COMPLETED status", log_completes)
        ∷ ("Multiple LOG jobs all complete", several_complete)
        ∷ [],
  )

  -- A job of type API that is polled for some statuses and asserted to be in one of others.
  unfoldable pub api_job :
      (payload : String)
      → (targets accepted : List String) → (timeout_ms : ℕ) → Script World (Unit {0})
  api_job payload targets accepted timeout_ms = do
    res ← create_job env (typed "API" payload)
    expect_200 env res
    id ← read_prop env res.body "id"
    job ← poll_job_status env targets id timeout_ms 500
    assert env (not (is_null job)) "Job polling timed out"
    status ← read_prop env job "status"
    assert env (includes accepted status) "Unexpected status"

  abbrev pub suite3 : Suite env
  suite3 = (
    "3 — Job Lifecycle (API type)",
    (
      "API job with valid URL completes successfully",
      api_job "https://httpbin.org/get" ("COMPLETED" ∷ "RETRY" ∷ "FAILED" ∷ [])
          ("COMPLETED" ∷ "RETRY" ∷ []) 20000,
    )
        ∷ (
          "API job with bad URL eventually fails",
          api_job "http://localhost:1/nonexistent" ("RETRY" ∷ "FAILED" ∷ [])
              ("RETRY" ∷ "FAILED" ∷ []) 15000,
        )
        ∷ [],
  )

  polled :
      (targets : List String) (id : Value) (t : ℕ)
      → IsPlain env (poll_job_status env targets id t 500)
  polled targets id t = poll_job_status-IsPlain env targets id t 500 (omega arith)

  log_completes-IsPlain : IsPlain env log_completes
  unfolding log_completes
  log_completes-IsPlain = search (steps, polled) depth 40

  create_logs-IsPlain : (i n : ℕ) → IsPlain env (create_logs i n)
  unfolding create_logs
  create_logs-IsPlain i zero = return-IsPlain env []
  create_logs-IsPlain i (suc n) =
      bind-IsPlain env _ _ (create_job-IsPlain env (typed "LOG" (template "multi-log-" i))) (λ res.
        bind-IsPlain env _ _ (prop-IsPlain env res.body "id") (λ id.
          bind-IsPlain env _ _ (create_logs-IsPlain (suc i) n)
            (λ ids. return-IsPlain env (id ∷ ids))))

  all_completed-IsPlain : (ids : List Value) (b : Bool) → IsPlain env (all_completed ids b)
  unfolding all_completed
  all_completed-IsPlain [] b = return-IsPlain env b
  all_completed-IsPlain (id ∷ ids) b =
      search (steps, get_job-IsPlain, all_completed-IsPlain ids) depth 40

  several_complete-IsPlain : IsPlain env several_complete
  unfolding several_complete
  several_complete-IsPlain = search (steps, create_logs-IsPlain, all_completed-IsPlain) depth 40

  api_job-IsPlain :
      (payload : String) (targets accepted : List String) (t : ℕ)
      → IsPlain env (api_job payload targets accepted t)
  unfolding api_job
  api_job-IsPlain payload targets accepted t = search (steps, polled) depth 40

  pub suite2-ArePlain : ArePlain env suite2.1
  suite2-ArePlain = (log_completes-IsPlain, (several_complete-IsPlain, tt))

  pub suite3-ArePlain : ArePlain env suite3.1
  suite3-ArePlain = (api_job-IsPlain _ _ _ _, (api_job-IsPlain _ _ _ _, tt))
