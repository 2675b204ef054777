-- ===== src/Runner/Functional/Ends.antt =====
-- Each functional test comes to an end: it passes or throws.
use job_queue_event_processi.Prelude.{ℕ, zero, suc, String, List, [], ◌∷◌, arith}
use job_queue_event_processi.Js.Value.{Value}
use job_queue_event_processi.Js.Env.{Env, Request, Delivery}
use job_queue_event_processi.Js.Http.{
  settled-IsPlain, read-IsPlain, plain, IsPlain, bind-IsPlain, return-IsPlain, prop-IsPlain,
}
use job_queue_event_processi.Runner.Functional.{
  Scan, time_in, look_up, run_immediate_job_test, poll_scheduled, run_scheduled_job_test,
  run_cancellation_test, bodies, post_all, read_ids, scan, run_rate_limiting_and_retry_test,
  run_circuit_breaker_test,
}

module _ (env : Env) where
  open env use {World, clock}

  look_up-IsPlain : (made : Value) → IsPlain env (look_up env made)
  unfolding look_up
  look_up-IsPlain made = search plain depth 30

  time_in-IsPlain : (minutes : ℕ) → IsPlain env (time_in env minutes)
  time_in-IsPlain minutes = record { answer = λ w. tt; later = λ w. omega arith }

  bodies-IsPlain : (ds : List Delivery) → IsPlain env (bodies env ds)
  unfolding bodies
  bodies-IsPlain [] = search plain depth 30
  bodies-IsPlain (d ∷ ds) = bind-IsPlain env _ _ (settled-IsPlain env d.fetched) (λ res.
      bind-IsPlain env _ _ (read-IsPlain env (env.parse res.text))
        (λ body. bind-IsPlain env _ _ (bodies-IsPlain ds) (λ rest. return-IsPlain env _)))

  post_all-IsPlain : (rs : List Request) → IsPlain env (post_all env rs)
  unfolding post_all
  post_all-IsPlain rs =
      let h = λ (w : World). bodies-IsPlain (env.fetch_all rs w).0 in
      record {
        answer = λ w. (h w).answer (env.fetch_all rs w).1;
        later = λ w. omega (arith, env.fetch_all_later rs w, (h w).later (env.fetch_all rs w).1);
      }

  read_ids-IsPlain : (js : List Value) → IsPlain env (read_ids env js)
  unfolding read_ids
  read_ids-IsPlain [] = search plain depth 30
  read_ids-IsPlain (made ∷ rest) =
      bind-IsPlain env _ _ (prop-IsPlain env made "id") (λ id. read_ids-IsPlain rest)

  scan-IsPlain :
      (status : String) (js : List Value) (seen : Scan) → IsPlain env (scan env status js seen)
  unfolding scan
  scan-IsPlain other [] seen = search plain depth 30
  scan-IsPlain other (made ∷ rest) seen =
      search (plain, look_up-IsPlain, scan-IsPlain other rest) depth 30

  poll_scheduled-IsPlain : (n : ℕ) (made : Value) → IsPlain env (poll_scheduled env n made)
  unfolding poll_scheduled
  poll_scheduled-IsPlain zero made = search plain depth 30
  poll_scheduled-IsPlain (suc n) made =
      search (plain, look_up-IsPlain, poll_scheduled-IsPlain n) depth 30

  pub run_immediate_job_test-IsPlain : IsPlain env (run_immediate_job_test env)
  unfolding run_immediate_job_test
  run_immediate_job_test-IsPlain = search (plain, look_up-IsPlain) depth 30

  pub run_scheduled_job_test-IsPlain : IsPlain env (run_scheduled_job_test env)
  unfolding run_scheduled_job_test
  run_scheduled_job_test-IsPlain = search (plain, time_in-IsPlain, poll_scheduled-IsPlain) depth 30

  pub run_cancellation_test-IsPlain : IsPlain env (run_cancellation_test env)
  unfolding run_cancellation_test
  run_cancellation_test-IsPlain = search (plain, time_in-IsPlain, look_up-IsPlain) depth 30

  pub run_rate_limiting_and_retry_test-IsPlain : IsPlain env (run_rate_limiting_and_retry_test env)
  unfolding run_rate_limiting_and_retry_test
  run_rate_limiting_and_retry_test-IsPlain =
      search (plain, post_all-IsPlain, read_ids-IsPlain, scan-IsPlain) depth 30

  pub run_circuit_breaker_test-IsPlain : IsPlain env (run_circuit_breaker_test env)
  unfolding run_circuit_breaker_test
  run_circuit_breaker_test-IsPlain =
      search (plain, post_all-IsPlain, read_ids-IsPlain, scan-IsPlain, look_up-IsPlain) depth 30
