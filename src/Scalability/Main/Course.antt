-- ===== src/Scalability/Main/Course.antt =====
-- The phases of scalability-test.js, one after the other.
use job_queue_event_processi.Prelude.{
  ℕ, zero, suc, ◌&&◌, ◌==◌, ◌+◌, ◌≤◌, ◌≡◌, refl, inl, inr, arith, Bool, true, false, List, [], ◌∷◌,
  map,
}
use job_queue_event_processi.Js.Value.{Value, truthy}
use job_queue_event_processi.Js.Env.{Env, health, job}
use job_queue_event_processi.Js.Http.{
  IsPlain, plain, bind-IsPlain, return-IsPlain, prop-IsPlain, get_from, fetch_json-IsPlain, wait,
  wait-IsPlain,
}
use job_queue_event_processi.Js.Ending.{
  Any, Ends, bind-Ends, catch-Ends, return-Ends, exit-Ends, if-Ends, done-Ends, plain-Ends,
}
use job_queue_event_processi.Scalability.Client.{get_request, get_job, get_stats, drain_queue}
use job_queue_event_processi.Scalability.Client.Draining.{drain_queue_ends}
use job_queue_event_processi.Scalability.Warmup.{
  is_part_up, try_health, poll_health, warm_up, phase0_warmup,
}
use job_queue_event_processi.Scalability.Latency.{Phase2, summary, phase2_e2e_latency}
use job_queue_event_processi.Scalability.Latency.Phase.{phase2_report}
use job_queue_event_processi.Scalability.Throughput.Ends.{phase1_ends}
use job_queue_event_processi.Scalability.Throughput.{Row}
use job_queue_event_processi.Scalability.Stress.{StressReport, phase3_concurrency_stress}
use job_queue_event_processi.Scalability.Stress.Threshold.{first_failing, phase3_report}
use job_queue_event_processi.Scalability.Resilience.{
  bad_job, trip, check_trips, time_text, rate_limiter_saturation, circuit_breaker_validation,
  cancellation_under_load, phase4_resilience,
}
use job_queue_event_processi.Scalability.Resilience.Saturation.{rate_limiter_reports}
use job_queue_event_processi.Scalability.Report.{Phases}
use job_queue_event_processi.Scalability.Main.{drain_backlog, run_phases}

-- What the phases hand to the report.
abbrev pub AreComplete : Phases → Type 0
AreComplete p =
    (map (λ r. r.target) p.phase1 ≡ 10 ∷ 25 ∷ 50 ∷ 100 ∷ [])
    × (map (λ r. r.concurrency) p.phase3.rows ≡ 10 ∷ 50 ∷ 100 ∷ 200 ∷ 500 ∷ [])
    × (p.phase3.failure_threshold ≡ first_failing p.phase3.rows)
    × (p.phase2.completed + p.phase2.timed_out ≤ p.phase2.total)

module _ (env : Env) where
  open env use {World, fetch_later}

  get_job-Ends : (id : Value) → Ends Any (get_job env id)
  unfolding get_job
  get_job-Ends id = done-Ends (get_job env id) (λ w. (_, refl, tt))

  get_stats-Ends : Ends Any (get_stats env)
  unfolding get_stats
  get_stats-Ends = done-Ends (get_stats env) (λ w. (_, refl, tt))

  warm_up-Ends : Ends Any (warm_up env)
  unfolding warm_up
  warm_up-Ends = done-Ends (warm_up env) (λ w. (_, refl, tt))

  wait-Ends : (ms : ℕ) → Ends Any (wait env ms)
  wait-Ends ms = plain-Ends env (wait env ms) (wait-IsPlain env ms)

  get_job-IsPlain : (id : Value) → IsPlain env (get_job env id)
  unfolding get_job
  get_job-IsPlain id = record { answer = λ w. tt; later = fetch_later (get_request (job id)) }

  ruleset phase4 = (plain, get_job-IsPlain)

  try_health-Ends : (i : ℕ) → Ends Any (try_health env i)
  unfolding try_health
  try_health-Ends i =
      catch-Ends _ _
        (bind-Ends _ _ (plain-Ends env _ (fetch_json-IsPlain env (get_from health))) (λ body got.
          if-Ends (is_part_up body "db" && is_part_up body "redis") _ _ (return-Ends true tt)
            (if-Ends (i == 60) _ _ exit-Ends (return-Ends false tt))))
        (λ e. return-Ends false tt)

  poll_health-Ends : (i n : ℕ) → Ends Any (poll_health env i n)
  unfolding poll_health
  poll_health-Ends i zero = return-Ends tt tt
  poll_health-Ends i (suc n) = bind-Ends _ _ (try_health-Ends i) (λ up went.
      if-Ends up _ _ (return-Ends tt tt)
        (bind-Ends _ _ (wait-Ends 1000) (λ t waited. poll_health-Ends (suc i) n)))

  phase0-Ends : Ends Any (phase0_warmup env)
  unfolding phase0_warmup
  phase0-Ends = bind-Ends _ _ (poll_health-Ends 1 60) (λ a p.
      bind-Ends _ _ get_stats-Ends (λ seen q. bind-Ends _ _ warm_up-Ends (λ b r.
        bind-Ends _ _ (wait-Ends 6000)
          (λ c s. bind-Ends _ _ get_stats-Ends (λ d t. return-Ends (truthy seen) tt)))))

  drain_queue-Ends : (target : ℕ) → Ends Any (drain_queue env 300000 target)
  drain_queue-Ends target = done-Ends (drain_queue env 300000 target) (λ w.
      elim (drain_queue_ends env 300000 target w) [
        | inl (low, w₁, read, soon, few) ↦ (true, low, tt)
        | inr (high, late) ↦ (false, high, tt)
      ])

  drain_backlog-Ends :
      (available : Bool) (target : ℕ) → Ends Any (drain_backlog env available target)
  unfolding drain_backlog
  drain_backlog-Ends available target =
      if-Ends available _ _ (bind-Ends _ _ (drain_queue-Ends target) (λ a p. return-Ends tt tt))
        (return-Ends tt tt)

  trip-IsPlain : (n : ℕ) → IsPlain env (trip env n)
  unfolding trip
  trip-IsPlain zero = return-IsPlain env []
  trip-IsPlain (suc n) = bind-IsPlain env _ _ (fetch_json-IsPlain env (bad_job env)) (λ made.
      bind-IsPlain env _ _ (prop-IsPlain env made "id") (λ id.
        bind-IsPlain env _ _ (wait-IsPlain env 200)
          (λ t. bind-IsPlain env _ _ (trip-IsPlain n) (λ rest. return-IsPlain env (made ∷ rest)))))

  check_trips-IsPlain : (made : List Value) → IsPlain env (check_trips env made)
  unfolding check_trips
  check_trips-IsPlain [] = return-IsPlain env tt
  check_trips-IsPlain (made ∷ rest) =
      bind-IsPlain env _ _ (prop-IsPlain env made "id")
        (λ id. bind-IsPlain env _ _ (get_job-IsPlain id) (λ found. check_trips-IsPlain rest))

  circuit_breaker_validation-IsPlain : IsPlain env (circuit_breaker_validation env)
  unfolding circuit_breaker_validation
  circuit_breaker_validation-IsPlain = search (phase4, trip-IsPlain, check_trips-IsPlain) depth 40

  time_text-IsPlain : (minutes : ℕ) → IsPlain env (time_text env minutes)
  time_text-IsPlain minutes = record { answer = λ w. tt; later = λ w. omega arith }

  cancellation_under_load-IsPlain : IsPlain env (cancellation_under_load env)
  unfolding cancellation_under_load
  cancellation_under_load-IsPlain = search (phase4, time_text-IsPlain) depth 40

  phase4-Ends : Ends Any (phase4_resilience env)
  unfolding phase4_resilience
  phase4-Ends =
      bind-Ends _ _
        (done-Ends {P = Any} (rate_limiter_saturation env)
          (λ w. let (r, ok, b) = rate_limiter_reports env w in (r, ok, tt)))
        (λ a p. bind-Ends _ _ (plain-Ends env _ circuit_breaker_validation-IsPlain) (λ b q.
          bind-Ends _ _ (plain-Ends env _ cancellation_under_load-IsPlain)
            (λ c r. return-Ends _ tt)))

  -- What phase 2 hands on.
  abbrev IsCounted2 : Phase2 → Type 0
  IsCounted2 s = s.completed + s.timed_out ≤ s.total

  phase2-Ends : Ends IsCounted2 (phase2_e2e_latency env)
  phase2-Ends = done-Ends (phase2_e2e_latency env) (λ w.
      let (results, ok, size, good, counted, e2e, submit, kafka) = phase2_report env w in
      (summary results, ok, counted))

  abbrev HasRates : List Row → Type 0
  HasRates rows = map (λ r. r.target) rows ≡ 10 ∷ 25 ∷ 50 ∷ 100 ∷ []

  abbrev HasLevels : StressReport → Type 0
  HasLevels report =
      (map (λ r. r.concurrency) report.rows ≡ 10 ∷ 50 ∷ 100 ∷ 200 ∷ 500 ∷ [])
      × (report.failure_threshold ≡ first_failing report.rows)

  phase3-Ends : Ends HasLevels (phase3_concurrency_stress env)
  phase3-Ends = done-Ends (phase3_concurrency_stress env) (λ w.
      let (report, ok, names, counted, first) = phase3_report env w in (report, ok, (names, first)))

  pub run_phases-Ends : Ends AreComplete (run_phases env)
  unfolding run_phases
  run_phases-Ends = bind-Ends _ _ phase0-Ends (λ available p.
      bind-Ends _ _ (drain_backlog-Ends available 20) (λ a q.
        bind-Ends _ _ phase2-Ends (λ phase2 counted.
          bind-Ends _ _ (done-Ends {P = HasRates} _ (phase1_ends env)) (λ phase1 rates.
            bind-Ends _ _ phase3-Ends (λ phase3 levels.
              bind-Ends _ _ (drain_backlog-Ends available 50) (λ b r.
                bind-Ends _ _ phase4-Ends (λ phase4 s.
                  bind-Ends _ _ get_stats-Ends
                    (λ c t. return-Ends _ (rates, levels.0, levels.1, counted)))))))))
