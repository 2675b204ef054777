-- ===== src/Scalability/Stress/Threshold.antt =====
-- The rows and the failure threshold of phase 3.
use job_queue_event_processi.Prelude.{
  ℕ, zero, suc, ◌+◌, ◌*◌, ◌-◌, ◌≤◌, ◌<◌, ◌≡◌, ◌↔◌, refl, ap, ◌∙◌, ltb, Option, none, some, List, [],
  ◌∷◌, map, length, length-map, if◌then◌else◌, arith,
}
use job_queue_event_processi.Js.Outcome.{Outcome, done}
use job_queue_event_processi.Js.Env.{Env}
use job_queue_event_processi.Scalability.Client.{submission}
use job_queue_event_processi.Scalability.Throughput.{landed}
use job_queue_event_processi.Scalability.Throughput.Rows.{length-accepted-rejected}
use job_queue_event_processi.Scalability.Stress.{
  StressRow, StressReport, threshold_after, pct, burst, stress_row, stress_level, stress_levels,
  phase3_concurrency_stress,
}

-- `rows.find(r => r.fail > 0)?.concurrency`, where test-runner.js looks for the threshold.
unfoldable pub first_failing : List StressRow → Option ℕ
first_failing [] = none
first_failing (r ∷ rs) = if ltb 0 r.fail then some r.concurrency else first_failing rs

abbrev pub or_first : Option ℕ → List StressRow → Option ℕ
or_first (some c) rows = some c
or_first none rows = first_failing rows

or_first-threshold_after :
    (t : Option ℕ) (r : StressRow) (rs : List StressRow)
    → or_first (threshold_after t r.concurrency r.fail) rs ≡ or_first t (r ∷ rs)
unfolding first_failing
or_first-threshold_after (some c) r rs = refl
or_first-threshold_after none r rs = ground arith

abbrev pub IsCounted : List StressRow → Type 0
IsCounted [] = Unit {0}
IsCounted (r ∷ rs) = (r.success + r.fail ≡ r.concurrency) × IsCounted rs

module _ (env : Env) where
  open env use {
    World, clock, parse, pause, percent, fetch_all, length-fetch_all, percent_below, percent_above,
  }

  length-burst : (concurrency i n : ℕ) → length (burst env concurrency i n) ≡ n
  unfolding burst
  length-burst concurrency i zero = refl
  length-burst concurrency i (suc n) = ap suc (length-burst concurrency (suc i) n)

  stress_row_total :
      (concurrency : ℕ) (w : World)
      → length (landed env (fetch_all (burst env concurrency 0 concurrency) w).0) ≡ concurrency
  stress_row_total concurrency w =
      let requests = burst env concurrency 0 concurrency in
      length-map (fetch_all requests w).0 (λ d. submission parse d.since d.at d.fetched)
      ∙ length-fetch_all requests w
      ∙ length-burst concurrency 0 concurrency

  -- What `stress_levels` makes of the levels, when it begins with a threshold.
  abbrev pub Stressed : List ℕ → Option ℕ → Outcome StressReport → Type 0
  Stressed levels threshold o =
      (report : StressReport) × (o ≡ done report)
      × (map (λ r. r.concurrency) report.rows ≡ levels)
      × IsCounted report.rows
      × (report.failure_threshold ≡ or_first threshold report.rows)

  stress_levels_lem :
      (levels : List ℕ) (threshold : Option ℕ) (w : World)
      → Stressed levels threshold (stress_levels env levels threshold w).0
  unfolding stress_levels stress_level stress_row first_failing
  stress_levels_lem [] none w =
      (record { rows = []; failure_threshold = none }, refl, refl, tt, refl)
  stress_levels_lem [] (some c) w =
      (record { rows = []; failure_threshold = some c }, refl, refl, tt, refl)
  stress_levels_lem (concurrency ∷ levels) threshold w =
      let all = fetch_all (burst env concurrency 0 concurrency) w in
      let r = stress_row env concurrency (clock all.1 - clock w) (landed env all.0) in
      let (rest, ok, names, counted, first) =
        stress_levels_lem levels (threshold_after threshold concurrency r.fail)
          (pause 4000 all.1) in
      rw ok (
        record rest { rows = r ∷ rest.rows },
        refl,
        ap (◌∷◌ concurrency) names,
        (length-accepted-rejected (landed env all.0) ∙ stress_row_total concurrency w, counted),
        first ∙ or_first-threshold_after threshold r rest.rows,
      )

  -- Phase 3 always ends with a report. It has one row for each of the levels 10, 50, 100, 200 and
  -- 500, in that order, whose successes and failures add up to the level; and the reported failure
  -- threshold is the level of the first row with a failure, or `null` if there is none.
  pub phase3_report :
      (w : World)
      → (report : StressReport) × ((phase3_concurrency_stress env w).0 ≡ done report)
        × (map (λ r. r.concurrency) report.rows ≡ 10 ∷ 50 ∷ 100 ∷ 200 ∷ 500 ∷ [])
        × IsCounted report.rows
        × (report.failure_threshold ≡ first_failing report.rows)
  unfolding phase3_concurrency_stress
  phase3_report w = stress_levels_lem (10 ∷ 50 ∷ 100 ∷ 200 ∷ 500 ∷ []) none w

  pct_lem : (n d : ℕ) → 0 < d → pct env n d ≡ percent n d
  unfolding pct
  pct_lem n d h = ground arith

  -- A rate that rounds to 100.0 % is one of all requests, below 2000 requests.
  full-clean :
      (d t success fail : ℕ)
      → d < 2000
      → success + fail ≡ d
      → t ≡ 1000
      → 2 * d * t ≤ 2000 * success + d
      → fail ≡ 0
  full-clean d t success fail small total full below = omega (arith, ap (λ (k : ℕ). 2 * d * k) full)

  clean-full : (d t : ℕ) → 0 < d → 2 * d * t ≤ 2000 * d + d → 2000 * d ≤ 2 * d * t + d → t ≡ 1000
  clean-full d t some_job below above = grind arith

  -- For a level below 2000 requests, the success rate shows 100.0 % exactly if no request failed.
  pub success_rate_full :
      (concurrency success fail : ℕ)
      → 0 < concurrency
      → concurrency < 2000
      → success + fail ≡ concurrency
      → (pct env success concurrency ≡ 1000) ↔ (fail ≡ 0)
  success_rate_full concurrency success fail some_job small total =
      rw (pct_lem success concurrency some_job) (
        (λ full.
            full-clean concurrency _ success fail small total full
              (percent_below success concurrency some_job)),
        (λ clean.
            let all : success ≡ concurrency = omega arith in
            rw all (
              clean-full concurrency _ some_job (percent_below concurrency concurrency some_job)
                (percent_above concurrency concurrency some_job))),
      )
