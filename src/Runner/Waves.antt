-- ===== src/Runner/Waves.antt =====
-- `runStressTest`.
pub mod Report
use job_queue_event_processi.Prelude.{
  ℕ, zero, suc, ◌+◌, ◌-◌, ◌*◌, ◌/◌, ◌≡◌, ◌<◌, refl, ltb, String, Bool, true, false, not,
  if◌then◌else◌, Option, none, some, List, [], ◌∷◌, map, length, replicate,
}
use job_queue_event_processi.Stats.{get_percentile, min_val, max_val, sum}
use job_queue_event_processi.Js.Value.{Value, str}
use job_queue_event_processi.Js.Outcome.{Outcome, done, Script, ◌>>=◌, ◌>>◌, return}
use job_queue_event_processi.Js.Env.{Env, Request, Fetched, answered, refused, Delivery}
use job_queue_event_processi.Js.Http.{object, post_job, wait}
use job_queue_event_processi.Scalability.Client.{is_ok}
use job_queue_event_processi.Runner.Functional.{log_fields}

pub record Result : Type 0 where
  pub success : Bool
  pub latency : ℕ

pub record Wave : Type 0 where
  pub concurrency : ℕ
  pub success_count : ℕ
  pub fail_count : ℕ
  pub success_rate : ℕ  -- in tenths of a percent
  pub throughput : String
  pub min_latency : ℕ
  pub avg_latency : ℕ
  pub p50 : ℕ
  pub p90 : ℕ
  pub p99 : ℕ
  pub max_latency : ℕ

-- What the `then` and the `catch` of a request return, `duration` ms after the wave began.
abbrev pub result_of : (duration : ℕ) → Fetched → Result
result_of duration (answered res) = record { success = is_ok res; latency = duration }
result_of duration (refused e) = record { success = false; latency = duration }

unfoldable pub results_of : (start_time : ℕ) → List Delivery → List Result
results_of start_time [] = []
results_of start_time (d ∷ ds) = result_of (d.at - start_time) d.fetched ∷ results_of start_time ds

unfoldable pub successful : List Result → List Result
successful [] = []
successful (r ∷ rs) = if r.success then r ∷ successful rs else successful rs

unfoldable pub failed : List Result → List Result
failed [] = []
failed (r ∷ rs) = if not r.success then r ∷ failed rs else failed rs

-- `Math.round(a / b)` of natural numbers, for `b` not 0: half of the way is rounded up.
abbrev pub round_div : ℕ → ℕ → ℕ
round_div a b = (2 * a + b) / (2 * b)

-- `stressResults.find(r => r.failCount > 0)`.
unfoldable pub find_failure : List Wave → Option Wave
find_failure [] = none
find_failure (r ∷ rs) = if ltb 0 r.fail_count then some r else find_failure rs

abbrev pub concurrency_levels : List ℕ
concurrency_levels = 10 ∷ 50 ∷ 100 ∷ 250 ∷ 500 ∷ 1000 ∷ []

module _ (env : Env) where
  open env use {World, clock, template, fetch_all, per_second, percent, length-fetch_all}

  unfoldable pub wave_requests : ℕ → List Request
  wave_requests concurrency = replicate concurrency (
      post_job (object (log_fields (template "stress-concurrency-" concurrency) "Stress test job")))

  -- The analysis of the results of a wave that took `wave_duration`.
  unfoldable pub wave : (concurrency wave_duration : ℕ) → List Result → Wave
  wave concurrency wave_duration results =
      let latencies = map (λ r. r.latency) results in
      record {
        concurrency = concurrency;
        success_count = length (successful results);
        fail_count = length (failed results);
        success_rate = percent (length (successful results)) concurrency;
        throughput = per_second (length (successful results)) wave_duration;
        min_latency = min_val latencies;
        avg_latency = round_div (sum latencies) concurrency;
        p50 = get_percentile latencies 50;
        p90 = get_percentile latencies 90;
        p99 = get_percentile latencies 99;
        max_latency = max_val latencies;
      }

  unfoldable pub stress_wave : ℕ → Script World Wave
  stress_wave concurrency w =
      let all = fetch_all (wave_requests concurrency) w in
      (done (wave concurrency (clock all.1 - clock w) (results_of (clock w) all.0)), all.1)

  unfoldable pub stress_waves : List ℕ → Script World (List Wave)
  stress_waves [] = return []
  stress_waves (concurrency ∷ levels) = do
    r ← stress_wave concurrency
    wait env 3000
    rest ← stress_waves levels
    return (r ∷ rest)

  -- The waves, and the one at which the failures begin.
  unfoldable pub run_stress_test : Script World (List Wave × Option Wave)
  unfolding stress_waves
  run_stress_test = do
    stress_results ← stress_waves concurrency_levels
    return (stress_results, find_failure stress_results)
