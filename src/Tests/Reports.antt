-- ===== src/Tests/Reports.antt =====
-- The theorems on phase 2 and on the run of scalability-test.js at concrete inputs.
use job_queue_event_processi.Prelude.{◌+◌, ◌≤◌, ◌≡◌, String, Option, none, List, length}
use job_queue_event_processi.Js.Outcome.{done}
use job_queue_event_processi.Scalability.Latency.{E2eResult, summary, phase2_e2e_latency}
use job_queue_event_processi.Scalability.Latency.Work.{AllResults}
use job_queue_event_processi.Scalability.Latency.Phase.{
  IsAscending, IsBriefAscending, phase2_report,
}
use job_queue_event_processi.Scalability.Report.{Page}
use job_queue_event_processi.Scalability.Main.{main}
use job_queue_event_processi.Scalability.Main.Finish.{Finished, scalability_ends}
use job_queue_event_processi.Tests.Server.{live, at_start}

phase2_report_example :
    (results : List E2eResult) × ((phase2_e2e_latency live at_start).0 ≡ done (summary results))
    × (length results ≡ (summary results).total)
    × AllResults live results
    × ((summary results).completed + (summary results).timed_out ≤ (summary results).total)
    × IsAscending (summary results).e2e
    × IsBriefAscending (summary results).submit
    × IsBriefAscending (summary results).kafka
phase2_report_example = phase2_report live at_start

-- A disk that takes the page.
abbrev onto_disk : Page → live.World → Option String × live.World
onto_disk page w = (none, w)

scalability_ends_example : Finished live onto_disk (main live onto_disk at_start)
scalability_ends_example = scalability_ends live onto_disk at_start
