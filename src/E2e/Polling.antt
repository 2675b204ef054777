-- ===== src/E2e/Polling.antt =====
-- `http`, `getJob` and `pollJobStatus`.
pub mod Clock
pub mod Rounds
use job_queue_event_processi.Prelude.{
  ℕ, zero, suc, ◌+◌, ◌-◌, ◌≤◌, ◌<◌, ◌≡◌, ◌⊎◌, inl, inr, refl, ltb, ltb→lt, ◌==◌, String, Bool, true,
  false, ◌&&◌, ◌||◌, if◌then◌else◌, Bool-cases, List, [], ◌∷◌, arith,
}
use job_queue_event_processi.Js.Value.{Value, null, str, opt_prop, truthy, is_str}
use job_queue_event_processi.Js.Outcome.{
  Outcome, done, thrown, exited, out_of_fuel, Script, ◌>>=◌, ◌>>◌, return, no_fuel, and_then,
}
use job_queue_event_processi.Js.Env.{Env, job, Request, Parsed, parsed, malformed}
use job_queue_event_processi.Js.Http.{
  get_from, fetch_reply, wait, IsPlain, IsAnswer, bind-IsPlain, return-IsPlain, fetch_reply-IsPlain,
}

pub record Response : Type 0 where
  pub status : ℕ
  pub body : Value

-- `JSON.parse(text)`, or the text where that throws.
abbrev pub body_of : String → Parsed → Value
body_of text (parsed v) = v
body_of text (malformed e) = str text

-- `targets.includes(status)`.
unfoldable pub includes : List String → Value → Bool
includes [] v = false
includes (t ∷ ts) v = is_str v t || includes ts v

module _ (env : Env) where
  open env use {World, clock, parse, pause, fetch, pause_lasts}

  -- `http`. A request that takes more than 15 s is one that `fetch` rejects.
  unfoldable pub http : Request → Script World Response
  http r = do
    res ← fetch_reply env r
    return (record { status = res.status; body = body_of res.text (parse res.text) })

  unfoldable pub get_job : Value → Script World Response
  get_job id = http (get_from (job id))

  abbrev pub has_status : Response → Bool
  has_status res = res.status == 200 && truthy res.body && truthy (opt_prop res.body "status")

  -- The body of the loop behind the request; `rest` is the loop after the pause.
  abbrev pub poll_next :
      (interval_ms : ℕ)
      → List String
      → (rest : Value → Script World Value) → Value
      → Response
      → Script World Value
  poll_next interval_ms targets rest last_job res =
      if has_status res
      then (if includes targets (opt_prop res.body "status")
          then return res.body
          else (wait env interval_ms >> rest res.body))
      else (wait env interval_ms >> rest last_job)

  -- The `while` of `pollJobStatus`, whose last job with a status is `last_job`.
  unfoldable pub poll_loop :
      (fuel start timeout_ms interval_ms : ℕ) → List String → Value → Value → Script World Value
  poll_loop zero start timeout_ms interval_ms targets id last_job w = no_fuel w
  poll_loop (suc fuel) start timeout_ms interval_ms targets id last_job w =
      let rest = poll_loop fuel start timeout_ms interval_ms targets id in
      if ltb (clock w - start) timeout_ms
      then (get_job id >>= poll_next interval_ms targets rest last_job) w
      else (done last_job, w)

  unfoldable pub poll_job_status :
      List String → Value → (timeout_ms interval_ms : ℕ) → Script World Value
  poll_job_status targets id timeout_ms interval_ms w =
      poll_loop (suc timeout_ms) (clock w) timeout_ms interval_ms targets id null w

  -- What a poll that began at `start` comes to: the exception of a request, a job in one of the
  -- target statuses, or after the timeout the last job that was seen, if any.
  abbrev pub Polled : (start timeout_ms : ℕ) → List String → Outcome Value × World → Type 0
  Polled start timeout_ms targets (o, w) =
      ((e : String) × (o ≡ thrown e))
      ⊎ ((v : Value) × (o ≡ done v)
          × ((includes targets (opt_prop v "status") ≡ true)
              ⊎ ((start + timeout_ms ≤ clock w)
                  × ((v ≡ null) ⊎ (truthy (opt_prop v "status") ≡ true)))))

  pub http-IsPlain : (r : Request) → IsPlain env (http r)
  unfolding http
  http-IsPlain r = bind-IsPlain env _ _ (fetch_reply-IsPlain env r) (λ res. return-IsPlain env _)

  pub get_job-IsPlain : (id : Value) → IsPlain env (get_job id)
  unfolding get_job
  get_job-IsPlain id = http-IsPlain (get_from (job id))

  abbrev Known : Value → Type 0
  Known v = (v ≡ null) ⊎ (truthy (opt_prop v "status") ≡ true)

  poll_loop_lem :
      (fuel start timeout_ms interval_ms : ℕ) (targets : List String) (id last_job : Value)
      (w : World)
      → 1 ≤ interval_ms
      → start ≤ clock w
      → start + timeout_ms - clock w < fuel
      → Known last_job
      → Polled start timeout_ms targets
          (poll_loop fuel start timeout_ms interval_ms targets id last_job w)
  unfolding poll_loop
  poll_loop_lem zero start timeout_ms interval_ms targets id last_job w p s h k = elim h [ ]
  poll_loop_lem (suc fuel) start timeout_ms interval_ms targets id last_job w p s h k =
      elim (Bool-cases (ltb (clock w - start) timeout_ms)) [
        | inr late ↦ rw late (inr (last_job, refl, inr (late_le late, k)))
        | inl early ↦ rw early (
            let asked = get_job-IsPlain id in
            go
              (λ v w' early' later known.
                let slept = pause_lasts interval_ms w' in
                poll_loop_lem fuel start timeout_ms interval_ms targets id v (pause interval_ms w')
                  p (omega arith) (omega arith) known)
              (ltb→lt _ _ early) (get_job id w).0 (get_job id w).1 (asked.answer w) (asked.later w))
      ]
    where
      late_le : ltb (clock w - start) timeout_ms ≡ false → start + timeout_ms ≤ clock w
      late_le e = ground arith

      rest : Value → Script World Value
      rest = poll_loop fuel start timeout_ms interval_ms targets id

      Again : Type 0
      Again =
          (v : Value) (w' : World)
          → clock w - start < timeout_ms
          → clock w ≤ clock w'
          → Known v
          → Polled start timeout_ms targets (rest v (pause interval_ms w'))

      go :
          Again
          → clock w - start < timeout_ms
          → (o : Outcome Response) (w' : World) → IsAnswer o
          → clock w ≤ clock w'
          → Polled start timeout_ms targets
              (and_then o (poll_next interval_ms targets rest last_job) w')
      go again early (thrown e) w' a later = inl (e, refl)
      go again early (exited n) w' a later = absurd a
      go again early out_of_fuel w' a later = absurd a
      go again early (done res) w' a later = elim (Bool-cases (has_status res)) [
        | inr unknown ↦ rw unknown (again last_job w' early later k)
        | inl known ↦ rw known (elim (Bool-cases (includes targets (opt_prop res.body "status"))) [
          | inl hit ↦ rw hit (inr (res.body, refl, inl hit))
          | inr miss ↦ rw miss (again res.body w' early later (inr (ground arith)))
        ])
      ]

  -- With an interval of at least 1 ms `pollJobStatus` ends. It throws what a request throws, or
  -- returns a job in one of the target statuses, or returns after the timeout, and then `null` or
  -- the last job that it saw with a status.
  pub poll_job_status_ends :
      (targets : List String) (id : Value) (timeout_ms interval_ms : ℕ) (w : World)
      → 1 ≤ interval_ms
      → Polled (clock w) timeout_ms targets (poll_job_status targets id timeout_ms interval_ms w)
  unfolding poll_job_status
  poll_job_status_ends targets id timeout_ms interval_ms w p =
      poll_loop_lem (suc timeout_ms) (clock w) timeout_ms interval_ms targets id null w p
        (omega arith) (omega arith) (inl refl)
