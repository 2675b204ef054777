-- ===== src/Scalability/Client/Waiting.antt =====
-- `waitForCompletion`: it ends, and what it returns.
use job_queue_event_processi.Prelude.{
  ℕ, zero, suc, ◌+◌, ◌-◌, ◌≤◌, ◌<◌, ◌≡◌, refl, ltb, true, ◌&&◌, ◌⊎◌, inl, inr, arith, Bool-cases,
  ltb→lt,
}
use job_queue_event_processi.Js.Value.{Value, null, opt_prop, truthy}
use job_queue_event_processi.Js.Outcome.{Outcome, done}
use job_queue_event_processi.Js.Env.{Env, job}
use job_queue_event_processi.Scalability.Client.{
  is_final, get_job, wait_loop, wait_for_completion, body_or_null, get_request,
}

module _ (env : Env) where
  open env use {World, clock, parse, pause, fetch, pause_lasts, fetch_later}

  -- The result is a job in a final state, or `null` once the deadline has passed.
  abbrev pub Waited : ℕ → Outcome Value × World → Type 0
  Waited deadline (o, w) =
      (v : Value) × (o ≡ done v)
      × ((truthy v && is_final (opt_prop v "status") ≡ true) ⊎ ((v ≡ null) × (deadline ≤ clock w)))

  -- What `getJob` returns and the world after it.
  abbrev found : Value → World → Value
  found id w = body_or_null parse (fetch (get_request (job id)) w).0

  abbrev round : ℕ → Value → World → World
  round poll_ms id w = pause poll_ms (fetch (get_request (job id)) w).1

  round_later :
      (poll_ms : ℕ) (id : Value) (w : World) → clock w + poll_ms ≤ clock (round poll_ms id w)
  round_later poll_ms id w =
      omega (arith, fetch_later (get_request (job id)) w, pause_lasts poll_ms)

  wait_loop_lem :
      (fuel deadline poll_ms : ℕ) (id : Value) (w : World)
      → 1 ≤ poll_ms
      → deadline - clock w < fuel
      → Waited deadline (wait_loop env fuel deadline poll_ms id w)
  unfolding wait_loop get_job
  wait_loop_lem zero deadline poll_ms id w p h = elim h [ ]
  wait_loop_lem (suc fuel) deadline poll_ms id w p h = elim (Bool-cases (ltb (clock w) deadline)) [
    | inr late ↦ rw late (null, refl, inr (refl, ground arith))
    | inl early ↦
        rw early
          (elim (Bool-cases (truthy (found id w) && is_final (opt_prop (found id w) "status"))) [
            | inl final ↦ rw final (found id w, refl, inl final)
            | inr more ↦ rw more (
                wait_loop_lem fuel deadline poll_ms id (round poll_ms id w) p
                  (omega (arith, round_later poll_ms id w, ltb→lt _ _ early)))
          ])
  ]

  -- With a poll interval of at least 1 ms `waitForCompletion` ends. It returns a job whose status
  -- is COMPLETED, FAILED or CANCELLED, or else `null`, and that only when the timeout has passed.
  pub wait_for_completion_ends :
      (id : Value) (timeout_ms poll_ms : ℕ) (w : World)
      → 1 ≤ poll_ms
      → Waited (clock w + timeout_ms) (wait_for_completion env id timeout_ms poll_ms w)
  unfolding wait_for_completion
  wait_for_completion_ends id timeout_ms poll_ms w p =
      wait_loop_lem (suc timeout_ms) (clock w + timeout_ms) poll_ms id w p (omega arith)
