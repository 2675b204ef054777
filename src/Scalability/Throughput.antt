-- ===== src/Scalability/Throughput.antt =====
-- Phase 1 of scalability-test.js: `runAtFixedRPS` and the rows of `phase1_sustainedThroughput`.
pub mod Rate
pub mod Rows
pub mod Ends
use job_queue_event_processi.Prelude.{
  ℕ, zero, suc, ◌+◌, ◌-◌, ◌*◌, ◌/◌, ltb, String, Bool, true, false, not, if◌then◌else◌, List, [],
  ◌∷◌, ◌++◌, map, length,
}
use job_queue_event_processi.Stats.{percentile, max_val}
use job_queue_event_processi.Js.Outcome.{Script, done, no_fuel, return, ◌>>=◌, ◌>>◌}
use job_queue_event_processi.Js.Env.{Env, Delivery}
use job_queue_event_processi.Scalability.Client.{
  Submission, submission, submit_request, accepted, rejected, latencies, now, sleep,
}

pub record FixedRate : Type 0 where
  pub results : List Submission
  pub sent : ℕ
  pub total_expected : ℕ

pub record Row : Type 0 where
  pub target : ℕ
  pub actual : String
  pub sent : ℕ
  pub success : ℕ
  pub fail : ℕ
  pub p50 : ℕ
  pub p90 : ℕ
  pub p99 : ℕ
  pub longest : ℕ

module _ (env : Env) where
  open env use {World, clock, parse, template, start, settle, per_second}

  -- What the callbacks of settled requests push to `results`.
  abbrev pub landed : List Delivery → List Submission
  landed = map (λ d. submission parse d.since d.at d.fetched)

  -- The sending loop. The pause tops the time that the start took up to the interval.
  unfoldable pub send_loop :
      (fuel end_ts interval rps sent : ℕ) → List Submission → Script World (ℕ × List Submission)
  send_loop zero end_ts interval rps sent results w = no_fuel w
  send_loop (suc fuel) end_ts interval rps sent results w =
      let w' = start rps (submit_request (template "rps-" rps)) w in
      let s = settle rps (interval - (clock w' - clock w)) w' in
      let rest = send_loop fuel end_ts interval rps (sent + 1) (results ++ landed s.0) s.1 in
      if ltb (clock w) end_ts then rest else (done (sent, results), w)

  -- The loop that waits for requests in flight.
  unfoldable pub land_loop :
      (fuel deadline rps sent : ℕ) → List Submission → Script World (List Submission)
  land_loop zero deadline rps sent results w = no_fuel w
  land_loop (suc fuel) deadline rps sent results w =
      let s = settle rps 100 w in
      let rest = land_loop fuel deadline rps sent (results ++ landed s.0) s.1 in
      if ltb (length results) sent
      then (if ltb (clock w) deadline then rest else (done results, w))
      else (done results, w)

  unfoldable pub run_at_fixed_rps : (rps duration_sec : ℕ) → Script World FixedRate
  run_at_fixed_rps rps duration_sec = do
    start_ts ← now env
    out ←
        send_loop (suc (duration_sec * 1000)) (start_ts + duration_sec * 1000) (1000 / rps) rps 0 []
    end_ts ← now env
    results ← land_loop 10001 (end_ts + 10000) rps out.0 out.1
    return (record { results = results; sent = out.0; total_expected = rps * duration_sec })

  -- A row of the table from the results of a run that took `wall_ms`.
  unfoldable pub row : (rps wall_ms : ℕ) → FixedRate → Row
  row rps wall_ms run =
      let lats = latencies (accepted run.results) in
      record {
        target = rps;
        actual = per_second (length (accepted run.results)) wall_ms;
        sent = run.sent;
        success = length (accepted run.results);
        fail = length (rejected run.results);
        p50 = percentile lats 50;
        p90 = percentile lats 90;
        p99 = percentile lats 99;
        longest = max_val lats;
      }

  unfoldable pub sustained : List ℕ → Script World (List Row)
  sustained [] = return []
  sustained (rps ∷ targets) = do
    t0 ← now env
    run ← run_at_fixed_rps rps 10
    t1 ← now env
    sleep env 5000
    rows ← sustained targets
    return (row rps (t1 - t0) run ∷ rows)

  unfoldable pub phase1_sustained_throughput : Script World (List Row)
  unfolding sustained
  phase1_sustained_throughput = sustained (10 ∷ 25 ∷ 50 ∷ 100 ∷ [])
