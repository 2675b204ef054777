-- ===== src/Scalability/Latency/Phase.antt =====
-- The report of phase 2.
use text.Mathlib.TextEquality.{eq_iff}
use job_queue_event_processi.Prelude.{
  String, subst, ℕ, zero, suc, ◌+◌, ◌*◌, ◌≤◌, ◌≡◌, ◌∙◌, refl, sym, ap, length-append, true, false,
  List, [], ◌∷◌, ◌++◌, length, arith,
}
use job_queue_event_processi.Stats.Percentile.{percentile_mono, percentile-le-max_val}
use job_queue_event_processi.Js.Value.{Value, str, is_str}
use job_queue_event_processi.Js.Outcome.{Outcome, done}
use job_queue_event_processi.Js.Env.{Env}
use job_queue_event_processi.Scalability.Client.{is_final}
use job_queue_event_processi.Scalability.Latency.{
  E2eResult, Spread, Brief, spread, brief, submit_latencies, kafka_latencies, summary, successes,
  timeouts, run_wave, run_waves, phase2_e2e_latency,
}
use job_queue_event_processi.Scalability.Latency.Results.{IsResult, unsent, ended, timed_out}
use job_queue_event_processi.Scalability.Latency.Work.{AllResults, AllResults-append, run_wave_ends}

-- The columns of a row of percentiles ascend.
abbrev pub IsAscending : Spread → Type 0
IsAscending s = (s.p50 ≤ s.p75) × (s.p75 ≤ s.p90) × (s.p90 ≤ s.p99) × (s.p99 ≤ s.longest)

spread-IsAscending : (ms : List ℕ) → IsAscending (spread ms)
spread-IsAscending ms = (
  percentile_mono ms 50 75 (omega arith) (omega arith),
  percentile_mono ms 75 90 (omega arith) (omega arith),
  percentile_mono ms 90 99 (omega arith) (omega arith),
  percentile-le-max_val ms 99 (omega arith),
)

abbrev pub IsBriefAscending : Brief → Type 0
IsBriefAscending b = b.p90 ≤ b.p99

brief-IsBriefAscending : (ms : List ℕ) → IsBriefAscending (brief ms)
brief-IsBriefAscending ms = percentile_mono ms 90 99 (omega arith) (omega arith)

is_str-eq : (v : Value) (s : String) → is_str v s ≡ true → v ≡ str s
is_str-eq (str t) s h = ap str ((eq_iff t s).0 h)
is_str-eq v s h = ground arith

module _ (env : Env) where
  open env use {World, clock, pause}

  -- A result that timed out is no success.
  timeout-fails :
      (r : E2eResult) → IsResult env r → is_str r.final_status "TIMEOUT" ≡ true → r.success ≡ false
  timeout-fails r (unsent label ts sub sent refused fail none_yet status) h = fail
  timeout-fails r (timed_out label ts ms sub sent accepted fail status lat late) h = fail
  timeout-fails r (ended label ts ms sub body sent accepted seen final status same lat) h = absurd (
      not_final
        (subst (λ v. is_final v ≡ true) (sym status ∙ is_str-eq r.final_status "TIMEOUT" h) final))
    where
      not_final : is_final (str "TIMEOUT") ≡ true → ⊥
      not_final e = ground arith

  successes-timeouts :
      (rs : List E2eResult)
      → AllResults env rs
      → length (successes rs) + length (timeouts rs) ≤ length rs
  successes-timeouts [] h = omega arith
  successes-timeouts (r ∷ rs) (h, hs) = ground (arith, successes-timeouts rs hs, timeout-fails r h)

  -- The waves of a run.
  abbrev pub Ran : (n : ℕ) → Outcome (List E2eResult) → Type 0
  Ran n o =
      (results : List E2eResult) × (o ≡ done results)
      × (length results ≡ 5 * n)
      × AllResults env results

  run_waves-Ran : (i n : ℕ) (w : World) → Ran n (run_waves env i n w).0
  unfolding run_waves
  run_waves-Ran i zero w = ([], refl, refl, tt)
  run_waves-Ran i (suc zero) w =
      let (results, ok, size, good, later) = run_wave_ends env i w in (results, ok, size, good)
  run_waves-Ran i (suc (suc n)) w =
      let (results, ok, size, good, later) = run_wave_ends env i w in
      let w' = pause 1100 (run_wave env i w).1 in
      let (rest, rest_ok, rest_size, rest_good) = run_waves-Ran (i + 5) (suc n) w' in
      rw (ok, rest_ok)
        (
          results ++ rest,
          refl,
          omega (arith, length-append results rest, size, rest_size),
          AllResults-append env results rest good rest_good,
        )

  -- Phase 2 comes to its end, whatever the server answers and in whatever order the chains go on.
  -- It has 40 results. Each is that of a submission whose answer gave no job, with no success; of one
  -- whose answer gave a job that was seen in a final status, with success if that is COMPLETED; or of
  -- one whose answer gave a job and that timed out, with no success. Completed and timed-out jobs are together at most 40,
  -- and the percentiles ascend, for the end-to-end latencies up to the maximum.
  pub phase2_report :
      (w : World)
      → (results : List E2eResult) × ((phase2_e2e_latency env w).0 ≡ done (summary results))
        × (length results ≡ (summary results).total)
        × AllResults env results
        × ((summary results).completed + (summary results).timed_out ≤ (summary results).total)
        × IsAscending (summary results).e2e
        × IsBriefAscending (summary results).submit
        × IsBriefAscending (summary results).kafka
  unfolding phase2_e2e_latency summary
  phase2_report w =
      let (results, ok, size, good) = run_waves-Ran 0 8 w in
      rw ok (
        results,
        refl,
        size,
        good,
        omega (arith, size, successes-timeouts results good),
        spread-IsAscending _,
        brief-IsBriefAscending (submit_latencies results),
        brief-IsBriefAscending (kafka_latencies results),
      )
