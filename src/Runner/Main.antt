-- ===== src/Runner/Main.antt =====
-- `main`, and how the whole runner ends.
use job_queue_event_processi.Prelude.{ℕ, ◌≡◌, ◌⊎◌, inl, inr, refl, List, [], ◌∷◌}
use job_queue_event_processi.Js.Outcome.{
  Outcome, done, thrown, exited, out_of_fuel, Script, ◌>>◌, return, exit, catch, on_thrown,
}
use job_queue_event_processi.Js.Env.{Env}
use job_queue_event_processi.Js.Http.{IsPlain, IsAnswer, bind-IsPlain, return-IsPlain, wait-IsPlain}
use job_queue_event_processi.Runner.Health.{wait_for_server, wait_for_server_ends}
use job_queue_event_processi.Runner.Functional.{
  run_immediate_job_test, run_cancellation_test, run_rate_limiting_and_retry_test,
  run_circuit_breaker_test, run_scheduled_job_test,
}
use job_queue_event_processi.Runner.Functional.Ends.{
  run_immediate_job_test-IsPlain, run_cancellation_test-IsPlain,
  run_rate_limiting_and_retry_test-IsPlain, run_circuit_breaker_test-IsPlain,
  run_scheduled_job_test-IsPlain,
}
use job_queue_event_processi.Runner.Waves.{
  run_stress_test, stress_wave, stress_waves, concurrency_levels, find_failure,
}

module _ (env : Env) where
  open env use {World, clock}

  unfoldable pub tests : Script World (Unit {0})
  tests = do
    run_immediate_job_test env
    run_cancellation_test env
    run_rate_limiting_and_retry_test env
    run_circuit_breaker_test env
    run_scheduled_job_test env
    run_stress_test env
    return tt

  unfoldable pub main : Script World (Unit {0})
  main = do wait_for_server env 30; catch (tests) (λ e. exit 1)

  stress_wave-IsPlain : (n : ℕ) → IsPlain env (stress_wave env n)
  unfolding stress_wave
  stress_wave-IsPlain n = record { answer = λ w. tt; later = env.fetch_all_later _ }

  stress_waves-IsPlain : (levels : List ℕ) → IsPlain env (stress_waves env levels)
  unfolding stress_waves
  stress_waves-IsPlain [] = return-IsPlain env []
  stress_waves-IsPlain (n ∷ levels) = bind-IsPlain env _ _ (stress_wave-IsPlain n) (λ r.
      bind-IsPlain env _ _ (wait-IsPlain env 3000) (λ u.
        bind-IsPlain env _ _ (stress_waves-IsPlain levels) (λ rest. return-IsPlain env (r ∷ rest))))

  run_stress_test-IsPlain : IsPlain env (run_stress_test env)
  unfolding run_stress_test
  run_stress_test-IsPlain =
      bind-IsPlain env _ _ (stress_waves-IsPlain concurrency_levels)
        (λ found. return-IsPlain env (found, find_failure found))

  tests-IsPlain : IsPlain env tests
  unfolding tests
  tests-IsPlain =
      search
        (
          bind-IsPlain, return-IsPlain, run_immediate_job_test-IsPlain,
          run_cancellation_test-IsPlain, run_rate_limiting_and_retry_test-IsPlain,
          run_circuit_breaker_test-IsPlain, run_scheduled_job_test-IsPlain, run_stress_test-IsPlain,
        )
        depth 30

  -- The runner always comes to an end: it finishes, or it exits with code 1. No exception of a test
  -- leaves `main`.
  pub main_ends : (w : World) → ((main w).0 ≡ done tt) ⊎ ((main w).0 ≡ exited 1)
  unfolding main
  main_ends w = elim (wait_for_server_ends env 30 w) [
    | inl up ↦ rw up (go (tests w₁).0 (tests w₁).1 (tests-IsPlain.answer w₁))
    | inr (exit_1, t) ↦ rw exit_1 (inr refl)
  ]
    where
      w₁ : World
      w₁ = (wait_for_server env 30 w).1

      go :
          (o : Outcome (Unit {0})) (w' : World)
          → IsAnswer o
          → let r = on_thrown o (λ e. exit 1) w' in (r.0 ≡ done tt) ⊎ (r.0 ≡ exited 1)
      go (done tt) w' h = inl refl
      go (thrown e) w' h = inr refl
      go (exited n) w' h = absurd h
      go out_of_fuel w' h = absurd h
