-- ===== src/E2e/Suites/Load.antt =====
-- Suites 9 and 10: the statistics, and 50 jobs at a time.
use job_queue_event_processi.Prelude.{
  ℕ, zero, suc, ◌+◌, ◌==◌, leb, String, Bool, true, false, ◌&&◌, if◌then◌else◌, List, [], ◌∷◌,
  length,
}
use job_queue_event_processi.Js.Value.{Value, num, opt_prop, truthy, is_str, is_num}
use job_queue_event_processi.Js.Outcome.{Script, ◌>>=◌, ◌>>◌, return, lift}
use job_queue_event_processi.Js.Env.{Env}
use job_queue_event_processi.Js.Http.{
  wait, read_prop, IsPlain, bind-IsPlain, return-IsPlain, prop-IsPlain, if-IsPlain,
}
use job_queue_event_processi.Js.Compare.{is_number, in_object, greater}
use job_queue_event_processi.E2e.Polling.{Response, get_job, get_job-IsPlain}
use job_queue_event_processi.E2e.Totals.{ArePlain, assert}
use job_queue_event_processi.E2e.Verdict.{Suite}
use job_queue_event_processi.E2e.Suites.Steps.{
  typed, create_job, get_stats, expect_200, create_together, steps, create_job-IsPlain,
  assert-IsPlain, in_object-IsPlain,
}

abbrev pub expected_statuses : List String
expected_statuses =
    "PENDING" ∷ "SCHEDULED" ∷ "QUEUED" ∷ "PROCESSING" ∷ "COMPLETED" ∷ "FAILED" ∷ "RETRY"
    ∷ "CANCELLED" ∷ []

-- `expectedStatuses.reduce((acc, s) => acc + stats[s], 0)`, where each is a number.
unfoldable pub sum_of : List String → Value → ℕ
sum_of [] seen = 0
sum_of (s ∷ ss) seen = elim (opt_prop seen s) [ num n ↦ n + sum_of ss seen | _ ↦ sum_of ss seen ]

module _ (env : Env) where
  open env use {World, template, number}

  -- The loop over the statuses.
  unfoldable pub check_statuses : List String → Value → Script World (Unit {0})
  check_statuses [] seen = return tt
  check_statuses (s ∷ ss) seen = do
    there ← lift (in_object s seen)
    assert env there "Missing status"
    assert env (is_number (opt_prop seen s)) "It should be a number"
    check_statuses ss seen

  unfoldable pub stats_total : Script World (Unit {0})
  stats_total = do
    res ← get_stats env
    expect_200 env res
    check_statuses expected_statuses res.body
    total ← read_prop env res.body "TOTAL"
    assert env (is_num total (sum_of expected_statuses res.body)) "TOTAL != sum of statuses"

  unfoldable pub stats_increment : Script World (Unit {0})
  stats_increment = do
    before ← get_stats env
    create_job env (typed "LOG" "stats-increment-test")
    wait env 500
    after ← get_stats env
    total ← read_prop env after.body "TOTAL"
    old_total ← read_prop env before.body "TOTAL"
    assert env (greater number total old_total) "TOTAL should increase"

  abbrev pub suite9 : Suite env
  suite9 = (
    "9 — Stats Endpoint Accuracy",
    ("Stats reflect all job statuses with correct total", stats_total)
        ∷ ("New job creation increments TOTAL", stats_increment)
        ∷ [],
  )

  -- `success` after the loop over the results, which reads the id of each success.
  unfoldable pub count_successes : List Response → ℕ → Script World ℕ
  count_successes [] success = return success
  count_successes (r ∷ rs) success =
      if r.status == 200
      then (do read_prop env r.body "id"; count_successes rs (suc success))
      else count_successes rs success

  unfoldable pub submit_together : Script World (Unit {0})
  submit_together = do
    results ← create_together env (λ i. typed "LOG" (template "stress-" i)) 50
    success ← count_successes results 0
    assert env (leb 45 success) "Expected at least 45 successful"

  -- The loop that creates the jobs from number `i` on, `n` of them; the ids of the successes.
  unfoldable pub resubmit : (i n : ℕ) → Script World (List Value)
  resubmit i zero = return []
  resubmit i (suc n) = do
    res ← create_job env (typed "LOG" (template "stress-complete-" i))
    if res.status == 200
        then (do id ← read_prop env res.body "id"; ids ← resubmit (suc i) n; return (id ∷ ids))
        else resubmit (suc i) n

  -- `completed` after the loop over the jobs.
  unfoldable pub count_completed : List Value → ℕ → Script World ℕ
  count_completed [] completed = return completed
  count_completed (id ∷ ids) completed = do
    res ← get_job env id
    count_completed ids (
        if truthy res.body && is_str (opt_prop res.body "status") "COMPLETED"
        then suc completed
        else completed)

  -- `allDone` after the attempts, of which `n` are left.
  unfoldable pub await_all : (n : ℕ) → List Value → Script World Bool
  await_all zero ids = return false
  await_all (suc n) ids = do
    wait env 1000
    completed ← count_completed ids 0
    if completed == length ids then return true else await_all n ids

  unfoldable pub complete_in_time : Script World (Unit {0})
  complete_in_time = do
    ids ← resubmit 0 50
    all_done ← await_all 60 ids
    assert env all_done "Not all jobs completed within 60 seconds"

  abbrev pub suite10 : Suite env
  suite10 = (
    "10 — Concurrency Stress (50 concurrent jobs)",
    ("50 concurrent LOG jobs all submit successfully", submit_together)
        ∷ ("All 50 stress jobs complete within 60 seconds", complete_in_time)
        ∷ [],
  )

  check_statuses-IsPlain : (ss : List String) (v : Value) → IsPlain env (check_statuses ss v)
  unfolding check_statuses
  check_statuses-IsPlain [] v = return-IsPlain env tt
  check_statuses-IsPlain (s ∷ ss) v = bind-IsPlain env _ _ (in_object-IsPlain env s v) (λ there.
      bind-IsPlain env _ _ (assert-IsPlain env there _)
        (λ u. bind-IsPlain env _ _ (assert-IsPlain env _ _) (λ t. check_statuses-IsPlain ss v)))

  stats_total-IsPlain : IsPlain env stats_total
  unfolding stats_total
  stats_total-IsPlain = search (steps, check_statuses-IsPlain) depth 40

  stats_increment-IsPlain : IsPlain env stats_increment
  unfolding stats_increment
  stats_increment-IsPlain = search steps depth 40

  count_successes-IsPlain : (rs : List Response) (n : ℕ) → IsPlain env (count_successes rs n)
  unfolding count_successes
  count_successes-IsPlain [] n = return-IsPlain env n
  count_successes-IsPlain (r ∷ rs) n = search (steps, count_successes-IsPlain rs) depth 40

  submit_together-IsPlain : IsPlain env submit_together
  unfolding submit_together
  submit_together-IsPlain = search (steps, count_successes-IsPlain) depth 40

  resubmit-IsPlain : (i n : ℕ) → IsPlain env (resubmit i n)
  unfolding resubmit
  resubmit-IsPlain i zero = return-IsPlain env []
  resubmit-IsPlain i (suc n) = bind-IsPlain env _ _ (create_job-IsPlain env _) (λ res.
      if-IsPlain env (res.status == 200) _ _
        (bind-IsPlain env _ _ (prop-IsPlain env res.body "id") (λ id.
          bind-IsPlain env _ _ (resubmit-IsPlain (suc i) n) (λ ids. return-IsPlain env (id ∷ ids))))
        (resubmit-IsPlain (suc i) n))

  count_completed-IsPlain : (ids : List Value) (n : ℕ) → IsPlain env (count_completed ids n)
  unfolding count_completed
  count_completed-IsPlain [] n = return-IsPlain env n
  count_completed-IsPlain (id ∷ ids) n =
      search (steps, get_job-IsPlain, count_completed-IsPlain ids) depth 40

  await_all-IsPlain : (n : ℕ) (ids : List Value) → IsPlain env (await_all n ids)
  unfolding await_all
  await_all-IsPlain zero ids = return-IsPlain env false
  await_all-IsPlain (suc n) ids =
      search (steps, count_completed-IsPlain, await_all-IsPlain n) depth 40

  complete_in_time-IsPlain : IsPlain env complete_in_time
  unfolding complete_in_time
  complete_in_time-IsPlain = search (steps, resubmit-IsPlain, await_all-IsPlain) depth 40

  pub suite9-ArePlain : ArePlain env suite9.1
  suite9-ArePlain = (stats_total-IsPlain, (stats_increment-IsPlain, tt))

  pub suite10-ArePlain : ArePlain env suite10.1
  suite10-ArePlain = (submit_together-IsPlain, (complete_in_time-IsPlain, tt))
