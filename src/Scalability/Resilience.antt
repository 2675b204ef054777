-- ===== src/Scalability/Resilience.antt =====
-- `phase4_resilience`.
pub mod Saturation
use job_queue_event_processi.Prelude.{
  ℕ, zero, suc, ◌+◌, ltb, String, Bool, true, false, not, ◌&&◌, ◌||◌, if◌then◌else◌, Option, none,
  some, List, [], ◌∷◌, length,
}
use job_queue_event_processi.Js.Value.{Value, str, opt_prop, truthy, is_str, is_num}
use job_queue_event_processi.Js.Outcome.{Outcome, done, Script, ◌>>=◌, ◌>>◌, return, prop, lift}
use job_queue_event_processi.Js.Env.{Env, Request}
use job_queue_event_processi.Js.Http.{object, post_job, post_cancel, fetch_reply, fetch_json, wait}
use job_queue_event_processi.Scalability.Client.{Submission, accepted, get_job, submit_request}
use job_queue_event_processi.Scalability.Throughput.{landed}

-- `results.rateLimiter` where it is triggered.
pub record Triggered : Type 0 where
  pub retry_count : ℕ
  pub recovery_pct : ℕ  -- in tenths of a percent
  pub final_completed : ℕ

-- `results.circuitBreaker` and `results.cancellation`: whether it passed, and the status seen.
pub record Verdict : Type 0 where
  pub passed : Bool
  pub status : Value

-- `rateLimiter` is `none` where `triggered` is false.
pub record Phase4 : Type 0 where
  pub rate_limiter : Option Triggered
  pub circuit_breaker : Verdict
  pub cancellation : Verdict

pub record Reaction : Type 0 where
  pub rl_retry : ℕ
  pub rl_completed : ℕ
  pub rl_failed : ℕ

abbrev pub tally : Value → Reaction → Reaction
tally job r =
    let status = opt_prop job "status" in
    record {
      rl_retry = if is_str status "RETRY" then suc r.rl_retry else r.rl_retry;
      rl_completed = if is_str status "COMPLETED" then suc r.rl_completed else r.rl_completed;
      rl_failed = if is_str status "FAILED" then suc r.rl_failed else r.rl_failed;
    }

module _ (env : Env) where
  open env use {World, template, percent, kolkata_in, fetch_all}

  -- 4-A: the loop over the accepted jobs after 5 s.
  unfoldable pub observe : List Submission → Reaction → Script World Reaction
  observe [] r = return r
  observe (sub ∷ subs) r =
      if not (truthy sub.id)
      then observe subs r
      else (do job ← get_job env sub.id; observe subs (if not (truthy job) then r else tally job r))

  -- The loop that counts the jobs that are COMPLETED after 30 s more.
  unfoldable pub recovered : List Submission → ℕ → Script World ℕ
  recovered [] final_completed = return final_completed
  recovered (sub ∷ subs) final_completed =
      if not (truthy sub.id) then recovered subs final_completed else (do
        job ← get_job env sub.id
        recovered subs (
            if is_str (opt_prop job "status") "COMPLETED"
            then suc final_completed
            else final_completed))

  unfoldable pub saturation_requests : (i n : ℕ) → List Request
  saturation_requests i zero = []
  saturation_requests i (suc n) =
      submit_request (template "rate-limit-sat-" i) ∷ saturation_requests (suc i) n

  unfoldable pub submit_saturation : Script World (List Submission)
  submit_saturation w =
      let all = fetch_all (saturation_requests 0 20) w in
      (done (accepted (landed env all.0)), all.1)

  unfoldable pub rate_limiter_saturation : Script World (Option Triggered)
  rate_limiter_saturation = do
    rl_ok ← submit_saturation
    wait env 5000
    reaction ← observe rl_ok (record { rl_retry = 0; rl_completed = 0; rl_failed = 0 })
    if ltb 0 reaction.rl_retry
        then (do
          wait env 30000
          final_completed ← recovered rl_ok 0
          return (
              some (record {
                retry_count = reaction.rl_retry;
                recovery_pct = percent final_completed (length rl_ok);
                final_completed = final_completed;
              })))
        else return none

  -- 4-B.
  abbrev pub bad_job : Request
  bad_job =
      post_job
        (object (("type", str "API") ∷ ("payload", str "http://localhost:9999/nonexistent") ∷ []))

  unfoldable pub trip : ℕ → Script World (List Value)
  trip zero = return []
  trip (suc n) = do
    made ← fetch_json env bad_job
    lift (prop made "id")
    wait env 200
    rest ← trip n
    return (made ∷ rest)

  -- The loop whose counts are only written to the console.
  unfoldable pub check_trips : List Value → Script World (Unit {0})
  check_trips [] = return tt
  check_trips (made ∷ rest) = do id ← lift (prop made "id"); get_job env id; check_trips rest

  unfoldable pub circuit_breaker_validation : Script World Verdict
  circuit_breaker_validation = do
    trip_jobs ← trip 5
    wait env 15000
    check_trips trip_jobs
    job6 ← fetch_json env bad_job
    id ← lift (prop job6 "id")
    wait env 3000
    check6 ← get_job env id
    return (record {
      passed = is_str (opt_prop check6 "status") "RETRY" && is_num (opt_prop check6 "retryCount") 0;
      status = opt_prop check6 "status";
    })

  -- 4-C.
  abbrev pub time_text : (minutes : ℕ) → Script World String
  time_text minutes w = (done (kolkata_in minutes w), w)

  unfoldable pub cancellation_under_load : Script World Verdict
  cancellation_under_load = do
    time ← time_text 2
    sched_job ← fetch_json env (
        post_job (
          object (
            ("type", str "LOG")
            ∷ ("payload", str "cancel-under-load")
            ∷ ("message", str "should be cancelled")
            ∷ ("time", str time)
            ∷ [])))
    id ← lift (prop sched_job "id")
    fetch_reply env (post_cancel id)
    after_cancel ← get_job env id
    return (record {
      passed =
          is_str (opt_prop after_cancel "status") "PENDING"
          || is_str (opt_prop after_cancel "status") "CANCELLED";
      status = opt_prop after_cancel "status";
    })

  unfoldable pub phase4_resilience : Script World Phase4
  phase4_resilience = do
    rate_limiter ← rate_limiter_saturation
    circuit_breaker ← circuit_breaker_validation
    cancellation ← cancellation_under_load
    return (record {
      rate_limiter = rate_limiter;
      circuit_breaker = circuit_breaker;
      cancellation = cancellation;
    })
