-- ===== src/E2e/Polling/Clock.antt =====
-- The clock over a poll, with which a poll is a plain script.
use job_queue_event_processi.Prelude.{
  ℕ, zero, suc, ◌-◌, ◌≤◌, inl, inr, ltb, String, Bool-cases, List, arith,
}
use job_queue_event_processi.Js.Value.{Value, null, opt_prop}
use job_queue_event_processi.Js.Outcome.{Script}
use job_queue_event_processi.Js.Env.{Env}
use job_queue_event_processi.Js.Http.{IsPlain, bind_later}
use job_queue_event_processi.E2e.Polling.{
  Response, includes, get_job, has_status, poll_next, poll_loop, poll_job_status, get_job-IsPlain,
  poll_job_status_ends,
}

module _ (env : Env) where
  open env use {World, clock, pause, pause_lasts}

  -- However it ends, the clock does not run backwards in a poll.
  poll_loop_later :
      (fuel start timeout_ms interval_ms : ℕ) (targets : List String) (id last_job : Value)
      (w : World)
      → clock w ≤ clock (poll_loop env fuel start timeout_ms interval_ms targets id last_job w).1
  unfolding poll_loop
  poll_loop_later zero start timeout_ms interval_ms targets id last_job w = omega arith
  poll_loop_later (suc fuel) start timeout_ms interval_ms targets id last_job w =
      elim (Bool-cases (ltb (clock w - start) timeout_ms)) [
        | inr late ↦ rw late (omega arith)
        | inl early ↦ rw early (
            bind_later env (get_job env id) (poll_next env interval_ms targets rest last_job)
              (get_job-IsPlain env id).later
              (next_later (λ v. poll_loop_later fuel start timeout_ms interval_ms targets id v)) w)
      ]
    where
      rest : Value → Script World Value
      rest = poll_loop env fuel start timeout_ms interval_ms targets id

      next_later :
          ((v : Value) (w' : World) → clock w' ≤ clock (rest v w').1)
          → (res : Response) (w' : World)
          → clock w' ≤ clock (poll_next env interval_ms targets rest last_job res w').1
      next_later h res w' = elim (Bool-cases (has_status env res)) [
        | inr unknown ↦ rw unknown (omega (arith, paused, h last_job (pause interval_ms w')))
        | inl known ↦ rw known (elim (Bool-cases (includes targets (opt_prop res.body "status"))) [
          | inl hit ↦ rw hit (omega arith)
          | inr miss ↦ rw miss (omega (arith, paused, h res.body (pause interval_ms w')))
        ])
      ]
        where
          paused : clock w' ≤ clock (pause interval_ms w')
          paused = omega (arith, pause_lasts interval_ms w')

  pub poll_job_status-IsPlain :
      (targets : List String) (id : Value) (timeout_ms interval_ms : ℕ)
      → 1 ≤ interval_ms
      → IsPlain env (poll_job_status env targets id timeout_ms interval_ms)
  unfolding poll_job_status
  poll_job_status-IsPlain targets id timeout_ms interval_ms p = record {
    answer = λ w. elim (poll_job_status_ends env targets id timeout_ms interval_ms w p) [
      | inl (e, threw) ↦ rw threw tt
      | inr (v, got, why) ↦ rw got tt
    ];
    later =
        λ w. poll_loop_later (suc timeout_ms) (clock w) timeout_ms interval_ms targets id null w;
  }
