-- ===== src/Scalability/Warmup.antt =====
-- `phase0_warmup`.
pub mod Unreachable
use job_queue_event_processi.Prelude.{
  ℕ, zero, suc, ◌+◌, ◌==◌, String, Bool, true, false, ◌&&◌, if◌then◌else◌, List, [], ◌∷◌, length,
  replicate,
}
use job_queue_event_processi.Js.Value.{Value, opt_prop, truthy, is_str}
use job_queue_event_processi.Js.Outcome.{
  Outcome, done, Script, ◌>>=◌, ◌>>◌, return, exit, catch, prop, lift,
}
use job_queue_event_processi.Js.Env.{Env, health}
use job_queue_event_processi.Js.Http.{get_from, fetch_json, wait}
use job_queue_event_processi.Scalability.Client.{accepted, get_stats, submit_request}
use job_queue_event_processi.Scalability.Throughput.{landed}

-- `data?.components?.name?.status === 'UP'`.
abbrev pub is_part_up : Value → String → Bool
is_part_up body name = is_str (opt_prop (opt_prop (opt_prop body "components") name) "status") "UP"

module _ (env : Env) where
  open env use {World, fetch_all}

  -- The `try` of attempt `i`, whether it leaves the loop, and its empty `catch`.
  unfoldable pub try_health : ℕ → Script World Bool
  try_health i =
      catch
        (do
          body ← fetch_json env (get_from health)
          if is_part_up body "db" && is_part_up body "redis"
              then return true
              else (if i == 60 then exit 1 else return false))
        (λ e. return false)

  -- The attempts from `i` on, `n` of them. The loop does not tell how it was left.
  unfoldable pub poll_health : (i n : ℕ) → Script World (Unit {0})
  poll_health i zero = return tt
  poll_health i (suc n) = do
    up ← try_health i
    if up then return tt else (wait env 1000 >> poll_health (suc i) n)

  -- The warm-up jobs; the number of those that the server takes is only written to the console.
  unfoldable pub warm_up : Script World ℕ
  warm_up w =
      let all = fetch_all (replicate 25 (submit_request "warmup")) w in
      (done (length (accepted (landed env all.0))), all.1)

  -- The result is `statsAvailable`.
  unfoldable pub phase0_warmup : Script World Bool
  phase0_warmup = do
    poll_health 1 60
    seen ← get_stats env
    warm_up
    wait env 6000
    get_stats env
    return (truthy seen)
