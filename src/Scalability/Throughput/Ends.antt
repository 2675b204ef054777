-- ===== src/Scalability/Throughput/Ends.antt =====
-- Phase 1 comes to its end, also where requests of an earlier run are still in flight.
use job_queue_event_processi.Prelude.{
  ℕ, zero, suc, ◌+◌, ◌-◌, ◌*◌, ◌/◌, ◌≤◌, ◌<◌, ◌≡◌, refl, ap, ltb, inl, inr, List, [], ◌∷◌, map,
  length, arith, Bool-cases, ltb→lt,
}
use job_queue_event_processi.Js.Outcome.{done}
use job_queue_event_processi.Js.Env.{Env}
use job_queue_event_processi.Scalability.Client.{Submission, submit_request}
use job_queue_event_processi.Scalability.Throughput.{
  FixedRate, Row, send_loop, land_loop, run_at_fixed_rps, sustained, row,
  phase1_sustained_throughput,
}

-- Rates of at most 1000, of which the interval is at least 1 ms.
abbrev AreRates : List ℕ → Type 0
AreRates [] = Unit {0}
AreRates (rps ∷ targets) = (1 ≤ 1000 / rps) × AreRates targets

module _ (env : Env) where
  open env use {World, clock, template, pause, start, settle, start_later, settle_lasts}

  send_loop_ends :
      (fuel end_ts interval rps sent : ℕ) (results : List Submission) (w : World)
      → 1 ≤ interval
      → end_ts - clock w < fuel
      → (out : ℕ × List Submission) × ((send_loop env fuel end_ts interval rps sent results w).0
          ≡ done out)
  unfolding send_loop
  send_loop_ends zero end_ts interval rps sent results w p h = elim h [ ]
  send_loop_ends (suc fuel) end_ts interval rps sent results w p h =
      let w₁ = start rps (submit_request (template "rps-" rps)) w in
      let gap = interval - (clock w₁ - clock w) in
      let lasts = settle_lasts rps gap w₁ in
      let later = start_later rps (submit_request (template "rps-" rps)) w in
      elim (Bool-cases (ltb (clock w) end_ts)) [
        | inr late ↦ rw late ((sent, results), refl)
        | inl early ↦ rw early (
            send_loop_ends fuel end_ts interval rps (sent + 1) _ _ p
              (omega (arith, lasts, later, h, p, ltb→lt _ _ early)))
      ]

  land_loop_ends :
      (fuel deadline rps sent : ℕ) (results : List Submission) (w : World)
      → deadline - clock w < fuel
      → (out : List Submission) × ((land_loop env fuel deadline rps sent results w).0 ≡ done out)
  unfolding land_loop
  land_loop_ends zero deadline rps sent results w h = elim h [ ]
  land_loop_ends (suc fuel) deadline rps sent results w h =
      elim (Bool-cases (ltb (length results) sent)) [
        | inr all ↦ rw all (results, refl)
        | inl some_left ↦ rw some_left (elim (Bool-cases (ltb (clock w) deadline)) [
          | inr late ↦ rw late (results, refl)
          | inl early ↦ rw early (
              land_loop_ends fuel deadline rps sent _ _
                (omega (arith, settle_lasts rps 100 w, ltb→lt _ _ early)))
        ])
      ]

  run_at_fixed_rps_ends :
      (rps duration_sec : ℕ) (w : World)
      → 1 ≤ 1000 / rps
      → (run : FixedRate) × ((run_at_fixed_rps env rps duration_sec w).0 ≡ done run)
  unfolding run_at_fixed_rps
  run_at_fixed_rps_ends rps duration_sec w p =
      let duration = duration_sec * 1000 in
      let (out, sent_ok) =
        send_loop_ends (suc duration) (clock w + duration) (1000 / rps) rps 0 [] w p
          (omega arith) in
      let w₁ = (send_loop env (suc duration) (clock w + duration) (1000 / rps) rps 0 [] w).1 in
      let (results, land_ok) =
        land_loop_ends 10001 (clock w₁ + 10000) rps out.0 out.1 w₁ (omega arith) in
      rw (sent_ok, land_ok) (_, refl)

  sustained_ends :
      (targets : List ℕ) (w : World)
      → AreRates targets
      → (rows : List Row) × ((sustained env targets w).0 ≡ done rows)
        × (map (λ r. r.target) rows ≡ targets)
  unfolding sustained row
  sustained_ends [] w p = ([], refl, refl)
  sustained_ends (rps ∷ targets) w (p, ps) =
      let (run, ok) = run_at_fixed_rps_ends rps 10 w p in
      let w₁ = (run_at_fixed_rps env rps 10 w).1 in
      let (rows, rows_ok, names) = sustained_ends targets (pause 5000 w₁) ps in
      rw (ok, rows_ok) (row env rps (clock w₁ - clock w) run ∷ rows, refl, ap (◌∷◌ rps) names)

  -- Phase 1 always ends, with one row for each of the rates 10, 25, 50 and 100.
  pub phase1_ends :
      (w : World)
      → (rows : List Row) × ((phase1_sustained_throughput env w).0 ≡ done rows)
        × (map (λ r. r.target) rows ≡ 10 ∷ 25 ∷ 50 ∷ 100 ∷ [])
  unfolding phase1_sustained_throughput
  phase1_ends w =
      sustained_ends (10 ∷ 25 ∷ 50 ∷ 100 ∷ []) w
        (omega arith, (omega arith, (omega arith, (omega arith, tt))))
