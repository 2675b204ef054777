-- ===== src/Scalability/Stress.antt =====
-- Phase 3 of scalability-test.js: `phase3_concurrencyStress`.
pub mod Threshold
use job_queue_event_processi.Prelude.{
  ℕ, zero, suc, ◌-◌, ltb, ◌==◌, String, Bool, true, false, ◌&&◌, if◌then◌else◌, Option, none, some,
  List, [], ◌∷◌, map, length, str_append,
}
use job_queue_event_processi.Stats.{percentile, max_val}
use job_queue_event_processi.Js.Outcome.{Script, done, return, ◌>>=◌, ◌>>◌}
use job_queue_event_processi.Js.Env.{Env, Request, Delivery}
use job_queue_event_processi.Scalability.Client.{
  Submission, submission, submit_request, accepted, rejected, latencies, now, sleep,
}
use job_queue_event_processi.Scalability.Throughput.{landed}

pub record StressRow : Type 0 where
  pub concurrency : ℕ
  pub success : ℕ
  pub fail : ℕ
  pub success_rate : ℕ  -- in tenths of a percent
  pub throughput : String
  pub wall_ms : ℕ
  pub p50 : ℕ
  pub p90 : ℕ
  pub p99 : ℕ
  pub longest : ℕ

pub record StressReport : Type 0 where
  pub rows : List StressRow
  pub failure_threshold : Option ℕ

-- `failureThreshold` after a level: set at the first level with a failure, and then kept.
abbrev pub threshold_after : Option ℕ → (concurrency fail : ℕ) → Option ℕ
threshold_after (some c) concurrency fail = some c
threshold_after none concurrency fail = if ltb 0 fail then some concurrency else none

module _ (env : Env) where
  open env use {World, clock, template, fetch_all, per_second, percent}

  -- `pct`, in tenths.
  unfoldable pub pct : ℕ → ℕ → ℕ
  pct n d = if d == 0 then 0 else percent n d

  -- The requests numbered from `i`, `n` of them, that the `for` loop starts.
  unfoldable pub burst : (concurrency i n : ℕ) → List Request
  burst concurrency i zero = []
  burst concurrency i (suc n) =
      submit_request (template (str_append (template "stress-" concurrency) "-") i)
      ∷ burst concurrency (suc i) n

  unfoldable pub stress_row : (concurrency wall_ms : ℕ) → List Submission → StressRow
  stress_row concurrency wall_ms results = record {
    concurrency = concurrency;
    success = length (accepted results);
    fail = length (rejected results);
    success_rate = pct (length (accepted results)) concurrency;
    throughput = per_second (length (accepted results)) wall_ms;
    wall_ms = wall_ms;
    p50 = percentile (latencies results) 50;
    p90 = percentile (latencies results) 90;
    p99 = percentile (latencies results) 99;
    longest = max_val (latencies results);
  }

  -- One level: the requests are started together, and all are awaited.
  unfoldable pub stress_level : ℕ → Script World StressRow
  stress_level concurrency w =
      let all = fetch_all (burst concurrency 0 concurrency) w in
      (done (stress_row concurrency (clock all.1 - clock w) (landed env all.0)), all.1)

  unfoldable pub stress_levels : List ℕ → Option ℕ → Script World StressReport
  stress_levels [] threshold = return (record { rows = []; failure_threshold = threshold })
  stress_levels (concurrency ∷ levels) threshold = do
    r ← stress_level concurrency
    sleep env 4000
    rest ← stress_levels levels (threshold_after threshold concurrency r.fail)
    return (record rest { rows = r ∷ rest.rows })

  unfoldable pub phase3_concurrency_stress : Script World StressReport
  phase3_concurrency_stress = stress_levels (10 ∷ 50 ∷ 100 ∷ 200 ∷ 500 ∷ []) none
