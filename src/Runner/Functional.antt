-- ===== src/Runner/Functional.antt =====
-- The functional tests of test-runner.js. What a test writes to the console is left out, but not
-- the properties that it reads for that, as reading them may throw.
pub mod Ends
use job_queue_event_processi.Prelude.{
  ℕ, zero, suc, ◌+◌, ltb, String, Bool, true, false, not, ◌&&◌, if◌then◌else◌, Option, none, some,
  List, [], ◌∷◌,
}
use job_queue_event_processi.Js.Value.{Value, str, is_str, is_num}
use job_queue_event_processi.Js.Outcome.{
  Outcome, done, thrown, Script, ◌>>=◌, ◌>>◌, return, throw, prop, lift,
}
use job_queue_event_processi.Js.Env.{Env, job, Request, Delivery}
use job_queue_event_processi.Js.Http.{
  object, get_from, post_job, post_cancel, fetch_reply, json, fetch_json, wait, settled, read,
}
use job_queue_event_processi.Scalability.Client.{is_ok}

abbrev pub log_fields : String → String → List (String × Value)
log_fields payload message =
    ("type", str "LOG") ∷ ("payload", str payload) ∷ ("message", str message) ∷ []

abbrev pub timed_fields : String → String → String → List (String × Value)
timed_fields payload message time =
    ("type", str "LOG")
    ∷ ("payload", str payload)
    ∷ ("message", str message)
    ∷ ("time", str time)
    ∷ []

-- How many of the scanned jobs are in RETRY, and how many in the other status that is looked for.
pub record Scan : Type 0 where
  pub retrying : ℕ
  pub other : ℕ

abbrev pub none_seen : Scan
none_seen = record { retrying = 0; other = 0 }

abbrev pub count_if : Bool → ℕ → ℕ
count_if b n = if b then suc n else n

module _ (env : Env) where
  open env use {World, template, kolkata_in, is_date, fetch_all, parse}

  -- The text of a time of day in Kolkata, some minutes from now.
  abbrev pub time_in : (minutes : ℕ) → Script World String
  time_in minutes w = (done (kolkata_in minutes w), w)

  -- `v.k`.
  abbrev pub get_prop : Value → String → Script World Value
  get_prop v k = lift (prop v k)

  -- `await (await fetch(`${JOBS_URL}/${job.id}`)).json()`.
  unfoldable pub look_up : Value → Script World Value
  look_up made = do id ← get_prop made "id"; fetch_json env (get_from (job id))

  unfoldable pub run_immediate_job_test : Script World (Unit {0})
  run_immediate_job_test = do
    res ←
        fetch_reply env
          (post_job (object (log_fields "test-immediate-payload" "Hello immediately!")))
    if not (is_ok res) then throw "Immediate job post failed" else (do
      made ← json env res
      get_prop made "id"
      wait env 3000
      final_job ← look_up made
      status ← get_prop final_job "status"
      if not (is_str status "COMPLETED") then throw "Expected COMPLETED" else return tt)

  -- The polls of the scheduled job: whether one of them finds it COMPLETED.
  unfoldable pub poll_scheduled : ℕ → Value → Script World Bool
  poll_scheduled zero made = return false
  poll_scheduled (suc n) made = do
    wait env 5000
    current_job ← look_up made
    status ← get_prop current_job "status"
    if is_str status "COMPLETED" then return true else poll_scheduled n made

  unfoldable pub run_scheduled_job_test : Script World (Unit {0})
  run_scheduled_job_test = do
    time ← time_in 1
    res ←
        fetch_reply env
          (post_job (object (timed_fields "test-scheduled-payload" "Hello from the future!" time)))
    if not (is_ok res) then throw "Scheduled job post failed" else (do
      made ← json env res
      schedule_time ← get_prop made "scheduleTime"
      if not (is_date schedule_time) then throw "Invalid time value" else (do
        is_done ← poll_scheduled 15 made
        if not is_done then throw "Scheduled job did not complete in time." else return tt))

  unfoldable pub run_cancellation_test : Script World (Unit {0})
  run_cancellation_test = do
    time ← time_in 2
    res ← fetch_reply env (
        post_job (object (timed_fields "test-cancelled-payload" "This should never execute!" time)))
    made ← json env res
    id ← get_prop made "id"
    fetch_reply env (post_cancel id)
    final_job ← look_up made
    get_prop final_job "status"
    return tt

  -- The requests that a loop starts, and `r.json()` of the replies: `Promise.all` rejects where one
  -- of them does. The pauses after it start when all requests have settled.
  unfoldable pub rate_limit_burst : (i n : ℕ) → List Request
  rate_limit_burst i zero = []
  rate_limit_burst i (suc n) =
      post_job
        (object (log_fields (template "rate-limit-payload-" i) (template "Rate limit test " i)))
      ∷ rate_limit_burst (suc i) n

  unfoldable pub bodies : List Delivery → Script World (List Value)
  bodies [] = return []
  bodies (d ∷ ds) = do
    res ← lift (settled d.fetched)
    body ← lift (read (parse res.text))
    rest ← bodies ds
    return (body ∷ rest)

  unfoldable pub post_all : List Request → Script World (List Value)
  post_all rs w = let got = fetch_all rs w in bodies got.0 got.1

  unfoldable pub read_ids : List Value → Script World (Unit {0})
  read_ids [] = return tt
  read_ids (made ∷ rest) = get_prop made "id" >> read_ids rest

  -- A loop that looks the jobs up one after the other.
  unfoldable pub scan : (status : String) → List Value → Scan → Script World Scan
  scan other [] seen = return seen
  scan other (made ∷ rest) seen = do
    db_job ← look_up made
    status ← get_prop db_job "status"
    scan other rest (record {
      retrying = count_if (is_str status "RETRY") seen.retrying;
      other = count_if (is_str status other) seen.other;
    })

  -- The first scan, and the number of jobs that the second one finds COMPLETED, if it is made.
  unfoldable pub run_rate_limiting_and_retry_test : Script World (Scan × Option ℕ)
  run_rate_limiting_and_retry_test = do
    made ← post_all (rate_limit_burst 0 12)
    read_ids made
    wait env 4000
    first ← scan "COMPLETED" made none_seen
    if ltb 0 first.retrying
        then (do
          wait env 25000
          second ← scan "COMPLETED" made none_seen
          return (first, some second.other))
        else return (first, none)

  abbrev pub failing_job : Request
  failing_job =
      post_job
        (object (("type", str "API") ∷ ("payload", str "http://localhost:9999/fail-endpoint") ∷ []))

  -- Whether the sixth job went to RETRY without an execution.
  unfoldable pub run_circuit_breaker_test : Script World Bool
  run_circuit_breaker_test = do
    made ← post_all (failing_job ∷ failing_job ∷ failing_job ∷ failing_job ∷ failing_job ∷ [])
    read_ids made
    wait env 5000
    scan "FAILED" made none_seen
    job6 ← fetch_json env failing_job
    get_prop job6 "id"
    wait env 2000
    check6 ← look_up job6
    status ← get_prop check6 "status"
    retry_count ← get_prop check6 "retryCount"
    return (is_str status "RETRY" && is_num retry_count 0)
