-- ===== src/E2e/Suites/Resilience.antt =====
-- Suites 6 to 8: rate limiter, retries and circuit breaker.
use job_queue_event_processi.Prelude.{
  ℕ, zero, suc, ◌==◌, leb, String, not, ◌&&◌, ◌||◌, if◌then◌else◌, some, List, [], ◌∷◌, arith,
}
use job_queue_event_processi.Js.Value.{Value, opt_prop, truthy, is_str}
use job_queue_event_processi.Js.Outcome.{Script, ◌>>=◌, ◌>>◌, return}
use job_queue_event_processi.Js.Env.{Env}
use job_queue_event_processi.Js.Http.{
  wait, read_prop, IsPlain, bind-IsPlain, return-IsPlain, prop-IsPlain, wait-IsPlain,
}
use job_queue_event_processi.Js.Compare.{is_null, to_number, exceeds, reaches}
use job_queue_event_processi.E2e.Polling.{
  Response, includes, get_job, poll_job_status, get_job-IsPlain,
}
use job_queue_event_processi.E2e.Polling.Clock.{poll_job_status-IsPlain}
use job_queue_event_processi.E2e.Totals.{ArePlain, assert}
use job_queue_event_processi.E2e.Verdict.{Suite}
use job_queue_event_processi.E2e.Suites.Steps.{
  typed, create_job, expect_200, create_together, count_in, steps, create_job-IsPlain,
  assert-IsPlain,
}

module _ (env : Env) where
  open env use {World, template, number}

  -- The loop over the results of the burst.
  unfoldable pub ids_of : List Response → Script World (List Value)
  ids_of [] = return []
  ids_of (r ∷ rs) = do
    assert env (r.status == 200) "Job creation failed"
    id ← read_prop env r.body "id"
    ids ← ids_of rs
    return (id ∷ ids)

  unfoldable pub burst_recovers : Script World (Unit {0})
  burst_recovers = do
    results ← create_together env (λ i. typed "LOG" (template "rate-test-" i)) 12
    ids ← ids_of results
    wait env 35000
    completed ← count_in env "COMPLETED" ids
    assert env (leb 5 completed) "Expected at least 5 completed"

  abbrev pub suite6 : Suite env
  suite6 = (
    "6 — Rate Limiter",
    ("Burst of LOG jobs: some get rate-limited then recover", burst_recovers) ∷ [],
  )

  unfoldable pub retry_counted : Script World (Unit {0})
  retry_counted = do
    res ← create_job env (typed "API" "http://localhost:1/will-fail")
    expect_200 env res
    wait env 5000
    id ← read_prop env res.body "id"
    check ← get_job env id
    retry_count ← read_prop env check.body "retryCount"
    assert env (reaches (to_number number retry_count) 0) "Should have retryCount field"
    status ← read_prop env check.body "status"
    assert env (includes ("RETRY" ∷ "FAILED" ∷ "PROCESSING" ∷ "QUEUED" ∷ []) status)
        "Unexpected status"
    if is_str status "RETRY"
        then (do
          next_retry_time ← read_prop env check.body "nextRetryTime"
          assert env (exceeds (to_number number next_retry_time) (some 0))
              "Should have nextRetryTime set")
        else return tt

  unfoldable pub fails_at_last : Script World (Unit {0})
  fails_at_last = do
    res ← create_job env (typed "API" "http://localhost:1/fail-forever")
    expect_200 env res
    id ← read_prop env res.body "id"
    job ← poll_job_status env ("FAILED" ∷ []) id 180000 5000
    if truthy job && is_str (opt_prop job "status") "FAILED"
        then (do
          retry_count ← read_prop env job "retryCount"
          assert env (reaches (to_number number retry_count) 5) "Expected retryCount >= 5")
        else (do
          assert env (not (is_null job)) "Job disappeared"
          status ← read_prop env job "status"
          assert env (includes ("RETRY" ∷ "FAILED" ∷ []) status) "Expected RETRY or FAILED")

  abbrev pub suite7 : Suite env
  suite7 = (
    "7 — Retry & Exponential Backoff",
    ("Failed API job increments retry count", retry_counted)
        ∷ ("Job reaches FAILED after max retries (5)", fails_at_last)
        ∷ [],
  )

  -- The loop that creates the failing jobs from number `i` on, `n` of them.
  unfoldable pub create_failing : (i n : ℕ) → Script World (List Value)
  create_failing i zero = return []
  create_failing i (suc n) = do
    res ← create_job env (typed "API" (template "http://localhost:1/circuit-" i))
    assert env (res.status == 200) "Job creation failed"
    id ← read_prop env res.body "id"
    wait env 200
    ids ← create_failing (suc i) n
    return (id ∷ ids)

  -- `retryCount` and `failedCount` after the loop over the jobs.
  unfoldable pub retried_or_failed : List Value → (retried failed : ℕ) → Script World (ℕ × ℕ)
  retried_or_failed [] retried failed = return (retried, failed)
  retried_or_failed (id ∷ ids) retried failed = do
    res ← get_job env id
    status ← read_prop env res.body "status"
    retried_or_failed ids (if is_str status "RETRY" then suc retried else retried)
        (if is_str status "FAILED" then suc failed else failed)

  unfoldable pub circuit_opens : Script World (Unit {0})
  circuit_opens = do
    ids ← create_failing 0 7
    wait env 10000
    counts ← retried_or_failed ids 0 0
    assert env (leb 1 counts.0 || leb 1 counts.1)
        "Expected at least some jobs to be retried or failed"

  abbrev pub suite8 : Suite env
  suite8 = (
    "8 — Circuit Breaker",
    ("Circuit opens after 5 consecutive failures for same type", circuit_opens) ∷ [],
  )

  ids_of-IsPlain : (rs : List Response) → IsPlain env (ids_of rs)
  unfolding ids_of
  ids_of-IsPlain [] = return-IsPlain env []
  ids_of-IsPlain (r ∷ rs) =
      bind-IsPlain env _ _ (assert-IsPlain env (r.status == 200) "Job creation failed") (λ u.
        bind-IsPlain env _ _ (prop-IsPlain env r.body "id")
          (λ id. bind-IsPlain env _ _ (ids_of-IsPlain rs) (λ ids. return-IsPlain env (id ∷ ids))))

  burst_recovers-IsPlain : IsPlain env burst_recovers
  unfolding burst_recovers
  burst_recovers-IsPlain = search (steps, ids_of-IsPlain) depth 40

  retry_counted-IsPlain : IsPlain env retry_counted
  unfolding retry_counted
  retry_counted-IsPlain = search (steps, get_job-IsPlain) depth 40

  polled :
      (targets : List String) (id : Value) (t : ℕ)
      → IsPlain env (poll_job_status env targets id t 5000)
  polled targets id t = poll_job_status-IsPlain env targets id t 5000 (omega arith)

  fails_at_last-IsPlain : IsPlain env fails_at_last
  unfolding fails_at_last
  fails_at_last-IsPlain = search (steps, polled) depth 40

  create_failing-IsPlain : (i n : ℕ) → IsPlain env (create_failing i n)
  unfolding create_failing
  create_failing-IsPlain i zero = return-IsPlain env []
  create_failing-IsPlain i (suc n) = bind-IsPlain env _ _ (create_job-IsPlain env _) (λ res.
      bind-IsPlain env _ _ (assert-IsPlain env (res.status == 200) "Job creation failed") (λ u.
        bind-IsPlain env _ _ (prop-IsPlain env res.body "id") (λ id.
          bind-IsPlain env _ _ (wait-IsPlain env 200) (λ v.
            bind-IsPlain env _ _ (create_failing-IsPlain (suc i) n)
              (λ ids. return-IsPlain env (id ∷ ids))))))

  retried_or_failed-IsPlain : (ids : List Value) (r f : ℕ) → IsPlain env (retried_or_failed ids r f)
  unfolding retried_or_failed
  retried_or_failed-IsPlain [] r f = return-IsPlain env (r, f)
  retried_or_failed-IsPlain (id ∷ ids) r f =
      search (steps, get_job-IsPlain, retried_or_failed-IsPlain ids) depth 40

  circuit_opens-IsPlain : IsPlain env circuit_opens
  unfolding circuit_opens
  circuit_opens-IsPlain = search (steps, create_failing-IsPlain, retried_or_failed-IsPlain) depth 40

  pub suite6-ArePlain : ArePlain env suite6.1
  suite6-ArePlain = (burst_recovers-IsPlain, tt)

  pub suite7-ArePlain : ArePlain env suite7.1
  suite7-ArePlain = (retry_counted-IsPlain, (fails_at_last-IsPlain, tt))

  pub suite8-ArePlain : ArePlain env suite8.1
  suite8-ArePlain = (circuit_opens-IsPlain, tt)
