-- ===== src/Scalability/Latency.antt =====
-- Phase 2 of scalability-test.js: `phase2_e2eLatency`. The chains of a wave are under way together:
-- each is a submission and then a `waitForCompletion`, and `Env.next` says which goes on next.
pub mod Work
pub mod Results
pub mod Phase
use job_queue_event_processi.Prelude.{
  ℕ, zero, suc, ◌+◌, ◌-◌, ◌*◌, ltb, ◌==◌, String, Bool, true, false, not, ◌&&◌, ◌||◌, if◌then◌else◌,
  Option, none, some, List, [], ◌∷◌, ◌++◌, map, length, get_or, set,
}
use job_queue_event_processi.Stats.{avg, percentile, min_val, max_val}
use job_queue_event_processi.Js.Value.{Value, undefined, null, str, opt_prop, truthy, is_str}
use job_queue_event_processi.Js.Outcome.{Outcome, done, Script, ◌>>=◌, ◌>>◌, return, no_fuel}
use job_queue_event_processi.Js.Env.{
  Env, Pending, idle, asked, timer, any_live, job, Fetched, Parsed,
}
use job_queue_event_processi.Scalability.Client.{
  Submission, submission, submit_request, get_request, body_or_null, is_final, sleep,
}

abbrev pub timeout : ℕ
timeout = 20000

-- `pollMs` of `waitForCompletion`.
abbrev pub poll_ms : ℕ
poll_ms = 400

-- What a chain returns; a property that is not set is `undefined`, and `e2eLatency` may be `null`.
pub record E2eResult : Type 0 where
  pub success : Bool
  pub e2e_latency : Option ℕ
  pub submit_latency : ℕ
  pub final_status : Value

-- Where a chain stands: before the answer to its submission; in `waitForCompletion` with a
-- `getJob` that was sent at some time, or in the pause after one; or at its end.
pub data Stage : Type 0 where
  submitting : Stage
  asking : (sub : Submission) (deadline sent : ℕ) → Stage
  resting : (sub : Submission) (deadline due : ℕ) → Stage
  settled : E2eResult → Stage

pub record Chain : Type 0 where
  pub label : ℕ
  pub submit_ts : ℕ
  pub stage : Stage

-- `v ?? w`.
abbrev pub or_else : Value → Value → Value
or_else undefined w = w
or_else null w = w
or_else v w = v

-- The result at time `t`, for what `waitForCompletion` returned.
abbrev pub finish : (t : ℕ) → Submission → Value → Chain → Chain
finish t sub final c = record c {
  stage = settled (record {
    success = truthy final && is_str (opt_prop final "status") "COMPLETED";
    e2e_latency = some (t - c.submit_ts);
    submit_latency = sub.latency;
    final_status = or_else (opt_prop final "status") (str "TIMEOUT");
  });
}

abbrev pub unsubmitted : Submission → E2eResult
unsubmitted sub = record {
  success = false;
  e2e_latency = none;
  submit_latency = sub.latency;
  final_status = undefined;
}

-- The test of the `while` at time `t`.
abbrev pub ask_again : (t deadline : ℕ) → Submission → Chain → Chain
ask_again t deadline sub c =
    if ltb t deadline then record c { stage = asking sub deadline t } else finish t sub null c

-- What a chain does at time `t`, where its request is answered or its pause is over.
unfoldable pub go_on : (parse : String → Parsed) → (t : ℕ) → Fetched → Stage → Chain → Chain
go_on parse t f submitting c =
    let sub = submission parse c.submit_ts t f in
    if not sub.success || not (truthy sub.id)
    then record c { stage = settled (unsubmitted sub) }
    else ask_again t (t + timeout) sub c
go_on parse t f (asking sub deadline sent) c =
    let found = body_or_null parse f in
    if truthy found && is_final (opt_prop found "status")
    then finish t sub found c
    else record c { stage = resting sub deadline (t + poll_ms) }
go_on parse t f (resting sub deadline due) c = ask_again t deadline sub c
go_on parse t f (settled r) c = c

abbrev pub successes : List E2eResult → List E2eResult
successes [] = []
successes (r ∷ rs) = if r.success then r ∷ successes rs else successes rs

abbrev pub timeouts : List E2eResult → List E2eResult
timeouts [] = []
timeouts (r ∷ rs) = if is_str r.final_status "TIMEOUT" then r ∷ timeouts rs else timeouts rs

-- A latency in arithmetic, where `null` counts 0.
abbrev pub latency_of : E2eResult → ℕ
latency_of r = elim r.e2e_latency [ none ↦ 0 | some ms ↦ ms ]

abbrev pub submit_latencies : List E2eResult → List ℕ
submit_latencies [] = []
submit_latencies (r ∷ rs) =
    if r.submit_latency == 0 then submit_latencies rs else r.submit_latency ∷ submit_latencies rs

pub record Spread : Type 0 where
  pub least : ℕ
  pub mean : ℕ
  pub p50 : ℕ
  pub p75 : ℕ
  pub p90 : ℕ
  pub p99 : ℕ
  pub longest : ℕ

pub record Brief : Type 0 where
  pub mean : ℕ
  pub p90 : ℕ
  pub p99 : ℕ

pub record Phase2 : Type 0 where
  pub total : ℕ
  pub completed : ℕ
  pub timed_out : ℕ
  pub e2e : Spread
  pub submit : Brief
  pub kafka : Brief

abbrev pub spread : List ℕ → Spread
spread ms = record {
  least = min_val ms;
  mean = avg ms;
  p50 = percentile ms 50;
  p75 = percentile ms 75;
  p90 = percentile ms 90;
  p99 = percentile ms 99;
  longest = max_val ms;
}

abbrev pub brief : List ℕ → Brief
brief ms = record { mean = avg ms; p90 = percentile ms 90; p99 = percentile ms 99 }

-- The end-to-end latencies, and those less the average of the submissions, but not below 0.
abbrev pub e2e_latencies : List E2eResult → List ℕ
e2e_latencies results = map latency_of (successes results)

abbrev pub kafka_latencies : List E2eResult → List ℕ
kafka_latencies results = map (λ ms. ms - avg (submit_latencies results)) (e2e_latencies results)

-- The summary of the results.
unfoldable pub summary : List E2eResult → Phase2
summary results = record {
  total = 40;
  completed = length (successes results);
  timed_out = length (timeouts results);
  e2e = spread (e2e_latencies results);
  submit = brief (submit_latencies results);
  kafka = brief (kafka_latencies results);
}

-- The most events that a chain still takes: a poll takes a millisecond or more.
abbrev pub work : Stage → ℕ
work submitting = 2 * timeout + 3
work (asking sub deadline sent) = 2 * (deadline - sent) + 2
work (resting sub deadline due) = 2 * (deadline + poll_ms - due) + 1
work (settled r) = 0

abbrev pub total_work : List Chain → ℕ
total_work [] = 0
total_work (c ∷ cs) = work c.stage + total_work cs

abbrev pub result_of : Stage → List E2eResult
result_of submitting = []
result_of (asking sub deadline sent) = []
result_of (resting sub deadline due) = []
result_of (settled r) = r ∷ []

abbrev pub results_of : List Chain → List E2eResult
results_of [] = []
results_of (c ∷ cs) = result_of c.stage ++ results_of cs

module _ (env : Env) where
  open env use {World, clock, parse, template, next}

  abbrev pub waits_for : (label : ℕ) → Stage → Pending
  waits_for label submitting = asked (submit_request (template "e2e-" label))
  waits_for label (asking sub deadline sent) = asked (get_request (job sub.id))
  waits_for label (resting sub deadline due) = timer due
  waits_for label (settled r) = idle

  abbrev pub pending : Chain → Pending
  pending c = waits_for c.label c.stage

  -- The chain with a number goes on.
  abbrev pub advance : (i t : ℕ) → Fetched → List Chain → List Chain
  advance i t f [] = []
  advance zero t f (c ∷ cs) = go_on parse t f c.stage c ∷ cs
  advance (suc i) t f (c ∷ cs) = c ∷ advance i t f cs

  -- `Promise.all` of the chains.
  unfoldable pub run_chains : (fuel : ℕ) → List Chain → Script World (List Chain)
  run_chains zero cs w = no_fuel w
  run_chains (suc fuel) cs w =
      let event = next (map pending cs) w in
      let rest = run_chains fuel (advance event.0.0 (clock event.1) event.0.1 cs) event.1 in
      if any_live (map pending cs) then rest else (done cs, w)

  -- The chains of a wave in front of their submissions. The `now()` that each reads as its `submitTs`,
  -- one behind the other before any of them is answered, are one reading of the clock here.
  abbrev pub started : (submit_ts j n : ℕ) → List Chain
  started submit_ts j zero = []
  started submit_ts j (suc n) =
      record { label = j; submit_ts = submit_ts; stage = submitting } ∷ started submit_ts (suc j) n

  -- A wave of five, whose first is number `i`.
  unfoldable pub run_wave : (i : ℕ) → Script World (List E2eResult)
  run_wave i w =
      let cs = started (clock w) i 5 in
      (do ended ← run_chains (suc (total_work cs)) cs; return (results_of ended)) w

  -- The waves from job `i` on, `n` of them, with a pause before each but the first.
  unfoldable pub run_waves : (i n : ℕ) → Script World (List E2eResult)
  run_waves i zero = return []
  run_waves i (suc zero) = run_wave i
  run_waves i (suc (suc n)) = do
    wave_res ← run_wave i
    sleep env 1100
    rest ← run_waves (i + 5) (suc n)
    return (wave_res ++ rest)

  unfoldable pub phase2_e2e_latency : Script World Phase2
  phase2_e2e_latency = do e2e_results ← run_waves 0 8; return (summary e2e_results)
