-- ===== src/Tests/Scripts.antt =====
-- The theorems of the scripts at concrete inputs.
use job_queue_event_processi.Prelude.{
  inl, inr, ℕ, ◌*◌, ◌≤◌, ◌<◌, ◌≡◌, ◌⊎◌, refl, false, Option, List, [], ◌∷◌, map, arith,
}
use job_queue_event_processi.Stats.{percentile}
use job_queue_event_processi.Stats.Order.{count_below, count_upto}
use job_queue_event_processi.Stats.Percentile.{percentile_rank}
use job_queue_event_processi.Js.Value.{num}
use job_queue_event_processi.Js.Outcome.{done, exited}
use job_queue_event_processi.Scalability.Client.{wait_for_completion}
use job_queue_event_processi.Scalability.Client.Waiting.{Waited, wait_for_completion_ends}
use job_queue_event_processi.Scalability.Throughput.{run_at_fixed_rps, FixedRate}
use job_queue_event_processi.Scalability.Throughput.Rate.{Ran, run_at_fixed_rps_bounds}
use job_queue_event_processi.Scalability.Stress.{StressReport, phase3_concurrency_stress}
use job_queue_event_processi.Scalability.Stress.Threshold.{
  phase3_report, success_rate_full, first_failing,
}
use job_queue_event_processi.Scalability.Stress.Threshold
use job_queue_event_processi.Scalability.Warmup.{phase0_warmup}
use job_queue_event_processi.Scalability.Warmup.Unreachable.{warmup_goes_on}
use job_queue_event_processi.Runner.Waves.{Wave, run_stress_test, concurrency_levels}
use job_queue_event_processi.Runner.Waves.Report.{run_stress_test_reports, AreWaves, IsReport}
use job_queue_event_processi.Runner.Main.{main, main_ends}
use job_queue_event_processi.Tests.Server.{live, dead, at_start}

abbrev times : List ℕ
times = 30 ∷ 10 ∷ 20 ∷ 50 ∷ 40 ∷ []

percentile_rank_example :
    (count_below (percentile times 90) times * 100 < 90 * 5)
    × (90 * 5 ≤ count_upto (percentile times 90) times * 100)
percentile_rank_example =
    percentile_rank times 90 (omega arith) (omega arith) (inr (inr (inl refl)))

wait_for_completion_ends_example :
    Waited live 20100 (wait_for_completion live (num 7) 20000 500 at_start)
wait_for_completion_ends_example =
    wait_for_completion_ends live (num 7) 20000 500 at_start (omega arith)

run_at_fixed_rps_bounds_example : Ran live 10 2 at_start (run_at_fixed_rps live 10 2 at_start)
run_at_fixed_rps_bounds_example = run_at_fixed_rps_bounds live 10 2 at_start refl refl

abbrev two_sent : FixedRate
two_sent = record { results = []; sent = 2; total_expected = 2 }

phase3_report_example :
    (report : StressReport) × ((phase3_concurrency_stress live at_start).0 ≡ done report)
    × (map (λ r. r.concurrency) report.rows ≡ 10 ∷ 50 ∷ 100 ∷ 200 ∷ 500 ∷ [])
    × Threshold.IsCounted report.rows
    × (report.failure_threshold ≡ first_failing report.rows)
phase3_report_example = phase3_report live at_start

warmup_goes_on_example :
    let r = phase0_warmup dead at_start in (r.0 ≡ done false) × (66100 ≤ dead.clock r.1)
warmup_goes_on_example = warmup_goes_on dead at_start (λ r w. ("ECONNREFUSED", refl))

run_stress_test_reports_example :
    (waves : List Wave) × (found : Option Wave) × ((run_stress_test live at_start).0
      ≡ done (waves, found))
    × AreWaves live concurrency_levels at_start waves
    × IsReport waves found
run_stress_test_reports_example = run_stress_test_reports live at_start

main_ends_example : ((main dead at_start).0 ≡ done tt) ⊎ ((main dead at_start).0 ≡ exited 1)
main_ends_example = main_ends dead at_start
