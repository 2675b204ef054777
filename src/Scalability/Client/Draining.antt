-- ===== src/Scalability/Client/Draining.antt =====
-- `drainQueue`: it ends, and what its answer says.
use job_queue_event_processi.Prelude.{
  ℕ, zero, suc, ◌+◌, ◌-◌, ◌≤◌, ◌<◌, ◌≡◌, refl, ltb, true, false, ◌&&◌, ◌⊎◌, inl, Bool, inr, arith,
  Bool-cases, ltb→lt,
}
use job_queue_event_processi.Js.Value.{Value, truthy}
use job_queue_event_processi.Js.Outcome.{Outcome, done}
use job_queue_event_processi.Js.Env.{Env, stats}
use job_queue_event_processi.Scalability.Client.{
  get_stats, drained, drain_loop, drain_queue, body_or_null, get_request,
}

module _ (env : Env) where
  open env use {World, clock, parse, pause, fetch, pause_lasts, fetch_later}

  abbrev pub seen : World → Value
  seen w = body_or_null parse (fetch (get_request stats) w).0

  -- `true` comes from statistics that were read with the backlog below the target, and `false`
  -- only once the deadline has passed.
  abbrev pub Drained : (target deadline : ℕ) → Outcome Bool × World → Type 0
  Drained target deadline (o, w') =
      ((o ≡ done true)
        × (w : World) × (w' ≡ (fetch (get_request stats) w).1)
        × (clock w < deadline)
        × (truthy (seen w) && drained env (seen w) target ≡ true))
      ⊎ ((o ≡ done false) × (deadline ≤ clock w'))

  abbrev round : World → World
  round w = pause 3000 (fetch (get_request stats) w).1

  round_later : (w : World) → clock w + 3000 ≤ clock (round w)
  round_later w = omega (arith, fetch_later (get_request stats) w, pause_lasts 3000)

  drain_loop_lem :
      (fuel deadline target : ℕ) (w : World)
      → deadline - clock w < fuel
      → Drained target deadline (drain_loop env fuel deadline target w)
  unfolding drain_loop get_stats
  drain_loop_lem zero deadline target w h = elim h [ ]
  drain_loop_lem (suc fuel) deadline target w h = elim (Bool-cases (ltb (clock w) deadline)) [
    | inr late ↦
        rw late (inr (refl, omega (arith, late_le late, fetch_later (get_request stats) w)))
    | inl early ↦ rw early (elim (Bool-cases (truthy (seen w) && drained env (seen w) target)) [
      | inl low ↦ rw low (inl (refl, w, refl, ltb→lt _ _ early, low))
      | inr high ↦ rw high (
          drain_loop_lem fuel deadline target (round w)
            (omega (arith, round_later w, ltb→lt _ _ early)))
    ])
  ]
    where
      late_le : ltb (clock w) deadline ≡ false → deadline ≤ clock w
      late_le e = ground arith

  -- `drainQueue` ends. It answers `true` where the statistics that it read last, before the
  -- deadline, show QUEUED and RETRY together below the target; or it answers `false` when the
  -- deadline has passed.
  pub drain_queue_ends :
      (max_wait_ms target : ℕ) (w : World)
      → Drained target (clock w + max_wait_ms) (drain_queue env max_wait_ms target w)
  unfolding drain_queue
  drain_queue_ends max_wait_ms target w =
      drain_loop_lem (suc max_wait_ms) (clock w + max_wait_ms) target w (omega arith)
