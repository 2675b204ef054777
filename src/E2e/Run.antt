-- ===== src/E2e/Run.antt =====
-- The run of e2e-test.js with its ten suites.
use job_queue_event_processi.Prelude.{true, false, ◌≡◌, ◌<◌, ◌⊎◌, []}
use job_queue_event_processi.Js.Outcome.{exited}
use job_queue_event_processi.Js.Env.{Env}
use job_queue_event_processi.E2e.Verdict.{
  Match, AreAllPlain, throws, is_up, pre_flight, zero_totals, main, main_exits,
}
use job_queue_event_processi.E2e.Suites.{suites}
use job_queue_event_processi.E2e.Suites.Api.{suite1-ArePlain}
use job_queue_event_processi.E2e.Suites.Lifecycle.{suite2-ArePlain, suite3-ArePlain}
use job_queue_event_processi.E2e.Suites.Scheduling.{suite4-ArePlain, suite5-ArePlain}
use job_queue_event_processi.E2e.Suites.Resilience.{
  suite6-ArePlain, suite7-ArePlain, suite8-ArePlain,
}
use job_queue_event_processi.E2e.Suites.Load.{suite9-ArePlain, suite10-ArePlain}

module _ (env : Env) where
  open env use {World}

  suites-AreAllPlain : AreAllPlain env (suites env)
  suites-AreAllPlain = (
    suite1-ArePlain env,
    (
      suite2-ArePlain env,
      (
        suite3-ArePlain env,
        (
          suite4-ArePlain env,
          (
            suite5-ArePlain env,
            (
              suite6-ArePlain env,
              (
                suite7-ArePlain env,
                (suite8-ArePlain env, (suite9-ArePlain env, (suite10-ArePlain env, tt))),
              ),
            ),
          ),
        ),
      ),
    ),
  )

  -- e2e-test.js always exits, whatever the server answers. Where the health check does not say that
  -- the database and Redis are up it exits with code 1 before any suite. Else it runs the ten suites in
  -- their order, each with a result that counts as passed the tests that return and as failed those
  -- that throw, and exits with code 0 if no test throws and with code 1 if one does.
  pub e2e_exits :
      (w : World)
      → let r = main env (suites env) (w, zero_totals) in
        let results = r.1.1.suite_results in
        let begin = (pre_flight env w).1 in
        ((is_up env w ≡ false) × (r.0 ≡ exited 1) × (results ≡ []))
        ⊎ ((is_up env w ≡ true)
            × Match env (suites env) begin results
            × (((throws env (suites env) begin ≡ 0) × (r.0 ≡ exited 0))
                ⊎ ((0 < throws env (suites env) begin) × (r.0 ≡ exited 1))))
  e2e_exits w = main_exits env (suites env) w suites-AreAllPlain
