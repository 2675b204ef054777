-- ===== src/Scalability/Client.antt =====
-- The HTTP helpers of scalability-test.js: `submitJob`, `getJob`, `getStats`, `waitForCompletion`
-- and `drainQueue`. A loop that runs until a deadline takes fuel.
pub mod Waiting
pub mod Draining
use job_queue_event_processi.Prelude.{
  ℕ, zero, suc, ◌+◌, ◌-◌, ltb, leb, String, Bool, true, false, ◌&&◌, ◌||◌, if◌then◌else◌, Option,
  none, some, str_eq, not, List, [], ◌∷◌, map,
}
use job_queue_event_processi.Js.Value.{
  Value, undefined, null, bool, num, str, obj, Fields, end, field, opt_prop, truthy, is_str,
}
use job_queue_event_processi.Js.Outcome.{
  Outcome, done, thrown, exited, out_of_fuel, Script, ◌>>=◌, ◌>>◌, return, no_fuel, prop,
}
use job_queue_event_processi.Js.Env.{
  Env, Endpoint, Request, get, post, jobs, stats, job, Reply, Fetched, answered, refused, Delivery,
  Parsed, parsed, malformed,
}

-- `res.ok`.
abbrev pub is_ok : Reply → Bool
is_ok r = leb 200 r.status && ltb r.status 300

-- The object that `submitJob` returns; a property that is not set is `undefined`.
pub record Submission : Type 0 where
  pub success : Bool
  pub latency : ℕ
  pub id : Value
  pub status : Value
  pub http_status : Value
  pub error : Value

abbrev pub failed_with : ℕ → String → Submission
failed_with latency e = record {
  success = false;
  latency = latency;
  id = undefined;
  status = undefined;
  http_status = undefined;
  error = str e;
}

-- `data.id` and `data.status` of the parsed body, or the error that the `catch` reports.
abbrev pub submitted : ℕ → Outcome Value → Outcome Value → Submission
submitted latency (done id) (done status) = record {
  success = true;
  latency = latency;
  id = id;
  status = status;
  http_status = undefined;
  error = undefined;
}
submitted latency (thrown e) _ = failed_with latency e
submitted latency _ (thrown e) = failed_with latency e
submitted latency _ _ = failed_with latency ""

abbrev pub accepted_body : ℕ → Parsed → Submission
accepted_body latency (parsed v) = submitted latency (prop v "id") (prop v "status")
accepted_body latency (malformed e) = failed_with latency e

-- The result of `submitJob` for a request that was started at `t0`.
unfoldable pub submission : (parse : String → Parsed) → ℕ → ℕ → Fetched → Submission
submission parse t0 t1 (refused e) = failed_with (t1 - t0) e
submission parse t0 t1 (answered r) =
    if is_ok r then accepted_body (t1 - t0) (parse r.text) else record {
      success = false;
      latency = t1 - t0;
      id = undefined;
      status = undefined;
      http_status = num r.status;
      error = undefined;
    }

-- `arr.filter(r => r.success)` and `arr.filter(r => !r.success)`.
unfoldable pub accepted : List Submission → List Submission
accepted [] = []
accepted (r ∷ rs) = if r.success then r ∷ accepted rs else accepted rs

unfoldable pub rejected : List Submission → List Submission
rejected [] = []
rejected (r ∷ rs) = if not r.success then r ∷ rejected rs else rejected rs

abbrev pub latencies : List Submission → List ℕ
latencies = map (λ r. r.latency)

abbrev pub log_job : String → Value
log_job label = obj (
    field "type" (str "LOG")
      (field "payload" (str label) (field "message" (str "scalability-test") end)))

abbrev pub submit_request : String → Request
submit_request label = record { method = post; endpoint = jobs; body = some (log_job label) }

-- `null` unless the reply is a success whose body is JSON.
unfoldable pub body_or_null : (parse : String → Parsed) → Fetched → Value
body_or_null parse (refused e) = null
body_or_null parse (answered r) =
    if is_ok r then (elim (parse r.text) [ parsed v ↦ v | malformed e ↦ null ]) else null

-- `s === 'COMPLETED' || s === 'FAILED' || s === 'CANCELLED'`.
abbrev pub is_final : Value → Bool
is_final s = is_str s "COMPLETED" || is_str s "FAILED" || is_str s "CANCELLED"

-- `Number(v || 0)` of a count in the statistics; `none` is `NaN`. `number` is `Number` of a text.
abbrev pub count_of : (number : String → Option ℕ) → Value → Option ℕ
count_of number (num n) = some n
count_of number undefined = some 0
count_of number null = some 0
count_of number (bool true) = some 1
count_of number (bool false) = some 0
count_of number (str s) = if str_eq s "" then some 0 else number s
count_of number (obj fs) = none

-- `queued + retry < targetBelow`; a comparison with `NaN` is false.
abbrev pub sum_below : Option ℕ → Option ℕ → ℕ → Bool
sum_below (some queued) (some retry) target = ltb (queued + retry) target
sum_below none _ target = false
sum_below _ none target = false

abbrev pub get_request : Endpoint → Request
get_request e = record { method = get; endpoint = e; body = none }

module _ (env : Env) where
  open env use {World, clock, parse, number, pause, fetch}

  abbrev pub now : Script World ℕ
  now w = (done (clock w), w)

  abbrev pub sleep : ℕ → Script World (Unit {0})
  sleep ms w = (done tt, pause ms w)

  unfoldable pub submit_job : String → Script World Submission
  unfolding submission
  submit_job label w =
      let r = fetch (submit_request label) w in
      (done (submission parse (clock w) (clock r.1) r.0), r.1)

  unfoldable pub get_job : Value → Script World Value
  get_job id w = let r = fetch (get_request (job id)) w in (done (body_or_null parse r.0), r.1)

  unfoldable pub get_stats : Script World Value
  get_stats w = let r = fetch (get_request stats) w in (done (body_or_null parse r.0), r.1)

  -- The `while` of `waitForCompletion`.
  unfoldable pub wait_loop : ℕ → (deadline poll_ms : ℕ) → Value → Script World Value
  wait_loop zero deadline poll_ms id = no_fuel
  wait_loop (suc fuel) deadline poll_ms id = do
    t ← now
    if ltb t deadline
        then (do
          found ← get_job id
          if truthy found && is_final (opt_prop found "status")
              then return found
              else (sleep poll_ms >> wait_loop fuel deadline poll_ms id))
        else return null

  -- Each round sleeps for `poll_ms`, so a fuel of one more than the timeout is enough.
  unfoldable pub wait_for_completion : Value → (timeout_ms poll_ms : ℕ) → Script World Value
  unfolding wait_loop
  wait_for_completion id timeout_ms poll_ms = do
    t ← now
    wait_loop (suc timeout_ms) (t + timeout_ms) poll_ms id

  abbrev pub drained : Value → ℕ → Bool
  drained seen target =
      let count = λ (key : String). count_of number (opt_prop seen key) in
      sum_below (count "QUEUED") (count "RETRY") target

  -- The `while` of `drainQueue`, whose pauses last 3 s.
  unfoldable pub drain_loop : ℕ → (deadline target_below : ℕ) → Script World Bool
  drain_loop zero deadline target_below = no_fuel
  drain_loop (suc fuel) deadline target_below = do
    t ← now
    if ltb t deadline
        then (do
          seen ← get_stats
          if truthy seen && drained seen target_below
              then return true
              else (sleep 3000 >> drain_loop fuel deadline target_below))
        else (get_stats >> return false)

  unfoldable pub drain_queue : (max_wait_ms target_below : ℕ) → Script World Bool
  unfolding drain_loop
  drain_queue max_wait_ms target_below = do
    t ← now
    drain_loop (suc max_wait_ms) (t + max_wait_ms) target_below
