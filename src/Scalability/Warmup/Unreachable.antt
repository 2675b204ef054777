-- ===== src/Scalability/Warmup/Unreachable.antt =====
-- The warm-up against a server that cannot be reached.
use job_queue_event_processi.Prelude.{
  ℕ, zero, suc, ◌+◌, ◌*◌, ◌≤◌, ◌≡◌, refl, String, false, replicate, arith,
}
use job_queue_event_processi.Js.Value.{null}
use job_queue_event_processi.Js.Outcome.{done}
use job_queue_event_processi.Js.Env.{Env, Request, refused, health, stats}
use job_queue_event_processi.Js.Http.{get_from, fetch_reply, fetch_json}
use job_queue_event_processi.Scalability.Client.{
  get_stats, get_request, submit_request, body_or_null,
}
use job_queue_event_processi.Scalability.Warmup.{try_health, poll_health, warm_up, phase0_warmup}

module _ (env : Env) where
  open env use {World, clock, fetch, fetch_all, pause, fetch_later, fetch_all_later, pause_lasts}

  -- Every request is refused.
  abbrev pub IsDown : Type 0
  IsDown = (r : Request) (w : World) → (e : String) × ((fetch r w).0 ≡ refused e)

  try_health-down :
      (i : ℕ) (w : World)
      → IsDown
      → let r = try_health env i w in (r.0 ≡ done false) × (clock w ≤ clock r.1)
  unfolding try_health fetch_json fetch_reply
  try_health-down i w down =
      let ask = get_from health in rw (down ask w).1 (refl, fetch_later ask w)

  poll_health-down :
      (i n : ℕ) (w : World)
      → IsDown
      → let r = poll_health env i n w in (r.0 ≡ done tt) × (clock w + n * 1000 ≤ clock r.1)
  unfolding poll_health
  poll_health-down i zero w down = (refl, omega arith)
  poll_health-down i (suc n) w down =
      let (none_up, later) = try_health-down i w down in
      let w' = (try_health env i w).1 in
      let rest = poll_health-down (suc i) n (pause 1000 w') down in
      rw none_up (rest.0, omega (arith, rest.1, later, pause_lasts 1000 w'))

  get_stats-down :
      (w : World) → IsDown → let r = get_stats env w in (r.0 ≡ done null) × (clock w ≤ clock r.1)
  unfolding get_stats body_or_null
  get_stats-down w down = let ask = get_request stats in rw (down ask w).1 (refl, fetch_later ask w)

  -- Where every request is refused, the warm-up does not abort: after the 60 attempts it goes on and
  -- returns that no statistics are available.
  pub warmup_goes_on :
      (w : World)
      → IsDown
      → let r = phase0_warmup env w in (r.0 ≡ done false) × (clock w + 66000 ≤ clock r.1)
  unfolding phase0_warmup warm_up
  warmup_goes_on w down =
      let polled = poll_health-down 1 60 w down in
      let w₁ = (poll_health env 1 60 w).1 in
      let first = get_stats-down w₁ down in
      let w₂ = (get_stats env w₁).1 in
      let warm = replicate 25 (submit_request "warmup") in
      let w₃ = (fetch_all warm w₂).1 in
      let last = get_stats-down (pause 6000 w₃) down in
      rw (polled.0, first.0, last.0)
        (
          refl,
          omega (arith, polled.1, first.1, last.1, fetch_all_later warm w₂, pause_lasts 6000 w₃),
        )
