-- ===== src/Scalability/Main.antt =====
-- `main` of scalability-test.js. The statistics that it reads at the end are only written to the
-- console; `fs.writeFileSync` is a parameter, which tells the message of its error.
pub mod Course
pub mod Finish
use job_queue_event_processi.Prelude.{
  ℕ, String, Bool, true, false, if◌then◌else◌, Option, none, some,
}
use job_queue_event_processi.Js.Outcome.{
  Outcome, done, thrown, Script, ◌>>=◌, ◌>>◌, return, exit, catch,
}
use job_queue_event_processi.Js.Env.{Env}
use job_queue_event_processi.Scalability.Client.{get_stats, drain_queue}
use job_queue_event_processi.Scalability.Warmup.{phase0_warmup}
use job_queue_event_processi.Scalability.Latency.{phase2_e2e_latency}
use job_queue_event_processi.Scalability.Throughput.{phase1_sustained_throughput}
use job_queue_event_processi.Scalability.Stress.{phase3_concurrency_stress}
use job_queue_event_processi.Scalability.Resilience.{phase4_resilience}
use job_queue_event_processi.Scalability.Report.{Phases, Page, generate_html_report}

module _ (env : Env) where
  open env use {World}

  -- The wait for the backlog of earlier load, where the statistics can be read.
  unfoldable pub drain_backlog : (stats_available : Bool) → ℕ → Script World (Unit {0})
  drain_backlog stats_available target_below =
      if stats_available then (drain_queue env 300000 target_below >> return tt) else return tt

  -- The phases in the order in which they run, up to the snapshot at the end.
  unfoldable pub run_phases : Script World Phases
  run_phases = do
    stats_available ← phase0_warmup env
    drain_backlog stats_available 20
    phase2 ← phase2_e2e_latency env
    phase1 ← phase1_sustained_throughput env
    phase3 ← phase3_concurrency_stress env
    drain_backlog stats_available 50
    phase4 ← phase4_resilience env
    get_stats env
    return (record { phase1 = phase1; phase2 = phase2; phase3 = phase3; phase4 = phase4 })

module _ (env : Env) (write_file_sync : Page → env.World → Option String × env.World) where
  open env use {World}

  abbrev pub written : Option String → Outcome (Unit {0})
  written none = done tt
  written (some e) = thrown e

  unfoldable pub write_report : Page → Script World (Unit {0})
  write_report page w = let r = write_file_sync page w in (written r.0, r.1)

  unfoldable pub main : Script World (Unit {0})
  main =
      catch (do phases ← run_phases env; write_report (generate_html_report env phases))
        (λ e. exit 1)
