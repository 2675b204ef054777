-- ===== src/Tests/Suites.antt =====
-- The theorems of the end-to-end harness at concrete inputs.
use job_queue_event_processi.Prelude.{◌<◌, ◌≡◌, ◌⊎◌, true, false, List, [], ◌∷◌, arith}
use job_queue_event_processi.Js.Value.{num, null}
use job_queue_event_processi.Js.Outcome.{exited}
use job_queue_event_processi.Js.Http.{return-IsPlain, throw-IsPlain}
use job_queue_event_processi.E2e.Polling.{poll_job_status}
use job_queue_event_processi.E2e.Polling.Rounds.{Polls, poll_job_status-Polls}
use job_queue_event_processi.E2e.Totals.{
  Test, ArePlain, assert, run_suite, SuiteRan, run_suite-SuiteRan,
}
use job_queue_event_processi.E2e.Verdict.{Match, main, is_up, pre_flight, throws, zero_totals}
use job_queue_event_processi.E2e.Suites.{suites}
use job_queue_event_processi.E2e.Run.{e2e_exits}
use job_queue_event_processi.Tests.Server.{live, at_start}

poll_job_status-Polls_example :
    Polls live 100 30000 500
      ("COMPLETED" ∷ [])
      (num 7)
      null
      at_start
      (poll_job_status live ("COMPLETED" ∷ []) (num 7) 30000 500 at_start)
poll_job_status-Polls_example =
    poll_job_status-Polls live ("COMPLETED" ∷ []) (num 7) 30000 500 at_start (omega arith)

-- A suite with a test that passes and one that throws.
abbrev tests : List (Test live)
tests =
    ("passes", assert live true "expected 200") ∷ ("throws", assert live false "expected 200") ∷ []

tests-ArePlain : ArePlain live tests
unfolding assert
tests-ArePlain = (return-IsPlain live tt, (throw-IsPlain live "expected 200", tt))

run_suite-SuiteRan_example :
    SuiteRan live "API" tests at_start zero_totals
      (run_suite live "API" tests (at_start, zero_totals))
run_suite-SuiteRan_example = run_suite-SuiteRan live "API" tests at_start zero_totals tests-ArePlain

e2e_exits_example :
    let r = main live (suites live) (at_start, zero_totals) in
    let results = r.1.1.suite_results in
    let begin = (pre_flight live at_start).1 in
    ((is_up live at_start ≡ false) × (r.0 ≡ exited 1) × (results ≡ []))
    ⊎ ((is_up live at_start ≡ true)
        × Match live (suites live) begin results
        × (((throws live (suites live) begin ≡ 0) × (r.0 ≡ exited 0))
            ⊎ ((0 < throws live (suites live) begin) × (r.0 ≡ exited 1))))
e2e_exits_example = e2e_exits live at_start
