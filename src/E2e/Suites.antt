-- ===== src/E2e/Suites.antt =====
-- The ten suites of e2e-test.js. What a test writes to the console is left out, and of the message
-- of an assertion the values that it shows.
pub mod Steps
pub mod Api
pub mod Lifecycle
pub mod Scheduling
pub mod Resilience
pub mod Load
use job_queue_event_processi.Prelude.{List, [], ◌∷◌}
use job_queue_event_processi.Js.Env.{Env}
use job_queue_event_processi.E2e.Verdict.{Suite}
use job_queue_event_processi.E2e.Suites.Api.{suite1}
use job_queue_event_processi.E2e.Suites.Lifecycle.{suite2, suite3}
use job_queue_event_processi.E2e.Suites.Scheduling.{suite4, suite5}
use job_queue_event_processi.E2e.Suites.Resilience.{suite6, suite7, suite8}
use job_queue_event_processi.E2e.Suites.Load.{suite9, suite10}

-- The suites in the order of `main`.
abbrev pub suites : (env : Env) → List (Suite env)
suites env =
    suite1 env
    ∷ suite2 env
    ∷ suite3 env
    ∷ suite4 env
    ∷ suite5 env
    ∷ suite6 env
    ∷ suite7 env
    ∷ suite8 env
    ∷ suite9 env
    ∷ suite10 env
    ∷ []
