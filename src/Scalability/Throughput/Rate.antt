-- ===== src/Scalability/Throughput/Rate.antt =====
-- `runAtFixedRPS`: both loops end, the target rate is never exceeded, and no result is invented.
use job_queue_event_processi.Prelude.{
  ℕ, zero, suc, ◌+◌, ◌-◌, ◌*◌, ◌/◌, ◌≤◌, ◌<◌, ◌≡◌, refl, ap, ltb, ◌⊎◌, inl, inr, List, [], ◌++◌,
  length, length-append, length-map, arith, Bool-cases, ltb→lt,
}
use job_queue_event_processi.Js.Outcome.{Outcome, done}
use job_queue_event_processi.Js.Env.{Env}
use job_queue_event_processi.Scalability.Client.{Submission, submission, submit_request}
use job_queue_event_processi.Scalability.Throughput.{
  FixedRate, landed, send_loop, land_loop, run_at_fixed_rps,
}

module _ (env : Env) where
  open env use {
    World, clock, parse, template, start, in_flight, settle, start_later, in_flight-start,
    settle_lasts, in_flight-settle,
  }

  -- The requests sent so far either landed or are in flight, and they took their intervals.
  abbrev Sending : (start_ts interval rps total sent : ℕ) → List Submission → World → Type 0
  Sending start_ts interval rps total sent results w =
      (length results + in_flight rps w ≡ sent)
      × (start_ts + sent * interval ≤ clock w)
      × (sent ≤ total)

  abbrev Sent : (end_ts rps total : ℕ) → Outcome (ℕ × List Submission) × World → Type 0
  Sent end_ts rps total (o, w) =
      (sent : ℕ) × (results : List Submission) × (o ≡ done (sent, results))
      × (length results + in_flight rps w ≡ sent)
      × (sent ≤ total)
      × (end_ts ≤ clock w)

  abbrev sent_one : ℕ → World → World
  sent_one rps w = start rps (submit_request (template "rps-" rps)) w

  abbrev gap : (interval rps : ℕ) → World → ℕ
  gap interval rps w = interval - (clock (sent_one rps w) - clock w)

  round_lasts :
      (interval rps : ℕ) (w : World)
      → clock w + interval ≤ clock (settle rps (gap interval rps w) (sent_one rps w)).1
  round_lasts interval rps w = omega (
    arith,
    start_later rps (submit_request (template "rps-" rps)) w,
    settle_lasts rps (gap interval rps w) (sent_one rps w),
  )

  length-landed :
      (results : List Submission) (rps ms : ℕ) (w : World)
      → length (results ++ landed env (settle rps ms w).0) + in_flight rps (settle rps ms w).1
        ≡ length results + in_flight rps w
  length-landed results rps ms w = omega (
    arith,
    length-append results (landed env (settle rps ms w).0),
    length-map (settle rps ms w).0 (λ d. submission parse d.since d.at d.fetched),
    in_flight-settle rps ms w,
  )

  Sending-round :
      (start_ts duration interval rps total sent : ℕ) (results : List Submission) (w : World)
      → duration ≤ total * interval
      → clock w < start_ts + duration
      → Sending start_ts interval rps total sent results w
      → let s = settle rps (gap interval rps w) (sent_one rps w) in
        Sending start_ts interval rps total (sent + 1) (results ++ landed env s.0) s.1
  Sending-round start_ts duration interval rps total sent results w q early inv = (
    omega (
      arith,
      inv,
      length-landed results rps (gap interval rps w) (sent_one rps w),
      in_flight-start rps (submit_request (template "rps-" rps)) w,
    ),
    omega (arith, inv, round_lasts interval rps w),
    below,
  )
    where
      sent_time : sent * interval < total * interval
      sent_time = omega (arith, inv)

      below : sent + 1 ≤ total
      below = grind (arith, sent_time)

  send_loop_lem :
      (fuel start_ts duration interval rps total sent : ℕ) (results : List Submission) (w : World)
      → 1 ≤ interval
      → duration ≤ total * interval
      → Sending start_ts interval rps total sent results w
      → start_ts + duration - clock w < fuel
      → Sent
          (start_ts + duration)
          rps
          total
          (send_loop env fuel (start_ts + duration) interval rps sent results w)
  unfolding send_loop
  send_loop_lem zero start_ts duration interval rps total sent results w p q inv h = elim h [ ]
  send_loop_lem (suc fuel) start_ts duration interval rps total sent results w p q inv h =
      elim (Bool-cases (ltb (clock w) (start_ts + duration))) [
        | inr late ↦ rw late (sent, results, refl, inv.0, inv.2, ground arith)
        | inl early ↦
            let soon = ltb→lt _ _ early in
            rw early (
              send_loop_lem fuel start_ts duration interval rps total (sent + 1) _ _ p q
                (Sending-round start_ts duration interval rps total sent results w q soon inv)
                (omega (arith, soon, round_lasts interval rps w)))
      ]

  abbrev Landed : (since deadline rps sent : ℕ) → Outcome (List Submission) × World → Type 0
  Landed since deadline rps sent (o, w) =
      (results : List Submission) × (o ≡ done results)
      × (length results + in_flight rps w ≡ sent)
      × (since ≤ clock w)
      × ((length results ≡ sent) ⊎ (deadline ≤ clock w))

  land_loop_lem :
      (fuel since deadline rps sent : ℕ) (results : List Submission) (w : World)
      → length results + in_flight rps w ≡ sent
      → since ≤ clock w
      → deadline - clock w < fuel
      → Landed since deadline rps sent (land_loop env fuel deadline rps sent results w)
  unfolding land_loop
  land_loop_lem zero since deadline rps sent results w inv from h = elim h [ ]
  land_loop_lem (suc fuel) since deadline rps sent results w inv from h =
      elim (Bool-cases (ltb (length results) sent)) [
        | inr all ↦ rw all (results, refl, inv, from, inl (ground arith))
        | inl some_left ↦ rw some_left (elim (Bool-cases (ltb (clock w) deadline)) [
          | inr late ↦ rw late (results, refl, inv, from, inr (ground arith))
          | inl early ↦ rw early (
              land_loop_lem fuel since deadline rps sent _ _
                (omega (arith, inv, length-landed results rps 100 w))
                (omega (arith, from, settle_lasts rps 100 w))
                (omega (arith, settle_lasts rps 100 w, ltb→lt _ _ early)))
        ])
      ]

  -- How a run of `runAtFixedRPS` that begins in `w` ends.
  abbrev pub Ran : (rps duration_sec : ℕ) (w : World) → Outcome FixedRate × World → Type 0
  Ran rps duration_sec w (o, w') =
      (run : FixedRate) × (o ≡ done run)
      × (run.total_expected ≡ rps * duration_sec)
      × (run.sent ≤ run.total_expected)
      × (length run.results + in_flight rps w' ≡ run.sent)
      × (clock w + duration_sec * 1000 ≤ clock w')
      × ((length run.results ≡ run.sent) ⊎ (clock w + duration_sec * 1000 + 10000 ≤ clock w'))

  -- For a target rate that divides 1000, with no request of the run in flight at the start:
  -- `runAtFixedRPS` ends after at least the given time, sends at most `targetRPS * durationSec`
  -- requests, returns one result for each request that has landed, and returns with fewer results
  -- than requests only if 10 s more have passed.
  pub run_at_fixed_rps_bounds :
      (rps duration_sec : ℕ) (w : World)
      → 1000 / rps * rps ≡ 1000
      → in_flight rps w ≡ 0
      → Ran rps duration_sec w (run_at_fixed_rps env rps duration_sec w)
  unfolding run_at_fixed_rps
  run_at_fixed_rps_bounds rps duration_sec w e idle =
      let duration = duration_sec * 1000 in
      let (sent, results, sent_ok, inv, le, late) =
        send_loop_lem (suc duration) (clock w) duration (1000 / rps) rps (rps * duration_sec) 0 [] w
          (grind arith) (omega (arith, ap (λ (t : ℕ). duration_sec * t) e))
          (omega arith, omega arith, omega arith) (omega arith) in
      let w₁ = (send_loop env (suc duration) (clock w + duration) (1000 / rps) rps 0 [] w).1 in
      let (landed_results, land_ok, inv', since, end) =
        land_loop_lem 10001 (clock w₁) (clock w₁ + 10000) rps sent results w₁ inv (omega arith)
          (omega arith) in
      rw sent_ok (
        rw land_ok (
          record { results = landed_results; sent = sent; total_expected = rps * duration_sec },
          refl,
          refl,
          le,
          inv',
          omega arith,
          elim end [ inl all ↦ inl all | inr waited ↦ inr (omega arith) ],
        ))
