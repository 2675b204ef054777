-- ===== src/E2e/Polling/Rounds.antt =====
-- The rounds of a poll, and what it returns after them.
use job_queue_event_processi.Prelude.{
  ℕ, zero, suc, ◌+◌, ◌-◌, ◌≤◌, ◌<◌, ◌≡◌, ◌⊎◌, inl, inr, refl, subst, ltb, ltb→lt, String, Bool,
  true, false, ◌&&◌, if◌then◌else◌, Bool-cases, List, [], ◌∷◌, arith,
}
use job_queue_event_processi.Js.Value.{Value, null, opt_prop}
use job_queue_event_processi.Js.Outcome.{Outcome, done, thrown, exited, out_of_fuel}
use job_queue_event_processi.Js.Env.{Env}
use job_queue_event_processi.Js.Http.{IsAnswer}
use job_queue_event_processi.E2e.Polling.{
  Response, includes, get_job, has_status, poll_loop, poll_job_status, get_job-IsPlain,
}

answer-cases :
    {A : Type 0} (o : Outcome A)
    → IsAnswer o
    → ((a : A) × (o ≡ done a)) ⊎ ((e : String) × (o ≡ thrown e))
answer-cases (done a) h = inl (a, refl)
answer-cases (thrown e) h = inr (e, refl)
answer-cases (exited n) h = absurd h
answer-cases out_of_fuel h = absurd h

module _ (env : Env) (start timeout_ms interval_ms : ℕ) (targets : List String) (id : Value) where
  open env use {World, clock, pause, pause_lasts}

  -- An answer with the job in one of the target statuses.
  abbrev pub is_hit : Response → Bool
  is_hit res = has_status env res && includes targets (opt_prop res.body "status")

  -- Requests that each are sent before the timeout and answered without a hit, with a pause behind
  -- each; with the answers, and the worlds before and after.
  pub data Rounds : World → List Response → World → Type 0 where
    no_round : (w : World) → Rounds w [] w
    round :
        (w : World) (res : Response) {rs : List Response} {w' : World}
        → clock w < start + timeout_ms
        → (get_job env id w).0 ≡ done res
        → is_hit res ≡ false
        → Rounds (pause interval_ms (get_job env id w).1) rs w'
        → Rounds w (res ∷ rs) w'

  -- The last answer with a status, or else a value.
  abbrev pub latest : Value → List Response → Value
  latest v [] = v
  latest v (res ∷ rs) = latest (if has_status env res then res.body else v) rs

  -- How a poll ends in a world that its rounds lead to.
  pub data Ends (last : Value) (w : World) : Outcome Value × World → Type 0 where
    too_late : start + timeout_ms ≤ clock w → Ends last w (done last, w)
    hit :
        (res : Response)
        → clock w < start + timeout_ms
        → (get_job env id w).0 ≡ done res
        → is_hit res ≡ true
        → Ends last w (done res.body, (get_job env id w).1)
    failed :
        (e : String)
        → clock w < start + timeout_ms
        → (get_job env id w).0 ≡ thrown e
        → Ends last w (thrown e, (get_job env id w).1)

  pub record Polls (v : Value) (w : World) (r : Outcome Value × World) : Type 0 where
    pub answers : List Response
    pub world : World
    pub rounds : Rounds w answers world
    pub ends : Ends (latest v answers) world r

  again-Polls :
      (v v' : Value) (w : World) (res : Response) (r : Outcome Value × World)
      → v' ≡ (if has_status env res then res.body else v)
      → clock w < start + timeout_ms
      → (get_job env id w).0 ≡ done res
      → is_hit res ≡ false
      → Polls v' (pause interval_ms (get_job env id w).1) r
      → Polls v w r
  again-Polls v v' w res r e early got miss h = record {
    answers = res ∷ h.answers;
    world = h.world;
    rounds = round w res early got miss h.rounds;
    ends = subst (λ u. Ends (latest u h.answers) h.world r) e h.ends;
  }

  poll_loop-Polls :
      (fuel : ℕ) (v : Value) (w : World)
      → 1 ≤ interval_ms
      → start ≤ clock w
      → start + timeout_ms - clock w < fuel
      → Polls v w (poll_loop env fuel start timeout_ms interval_ms targets id v w)
  unfolding poll_loop
  poll_loop-Polls zero v w p s h = elim h [ ]
  poll_loop-Polls (suc fuel) v w p s h = elim (Bool-cases (ltb (clock w - start) timeout_ms)) [
    | inr late ↦
        rw late
          (record { answers = []; world = w; rounds = no_round w; ends = too_late (ground arith) })
    | inl soon ↦
        let early : clock w < start + timeout_ms = omega (arith, s, ltb→lt _ _ soon) in
        let asked = get_job-IsPlain env id in
        let w₁ = (get_job env id w).1 in
        let slept = pause_lasts interval_ms w₁ in
        elim (answer-cases (get_job env id w).0 (asked.answer w)) [
          | inr (e, threw) ↦
              rw (poll_loop, soon, threw)
                (record {
                  answers = [];
                  world = w;
                  rounds = no_round w;
                  ends = failed e early threw;
                })
          | inl (res, got) ↦
              let next : (v' : Value)
                  → Polls v' (pause interval_ms w₁) (
                      poll_loop env fuel start timeout_ms interval_ms targets id v'
                        (pause interval_ms w₁)) =
                λ v'.
                  poll_loop-Polls fuel v' (pause interval_ms w₁) p (omega (arith, asked.later w))
                    (omega (arith, asked.later w)) in
              elim (Bool-cases (has_status env res)) [
                | inr unknown ↦
                    rw (poll_loop, soon, got, unknown)
                      (again-Polls v v w res _ (rw unknown refl) early got (ground (arith, unknown))
                        (next v))
                | inl known ↦ elim (Bool-cases (includes targets (opt_prop res.body "status"))) [
                  | inl target ↦
                      rw (poll_loop, soon, got, known, target)
                        (record {
                          answers = [];
                          world = w;
                          rounds = no_round w;
                          ends = hit res early got (ground (arith, known, target));
                        })
                  | inr other ↦
                      rw (poll_loop, soon, got, known, other)
                        (again-Polls v res.body w res _ (rw known refl) early got
                          (ground (arith, other)) (next res.body))
                ]
              ]
        ]
  ]

module _ (env : Env) where
  open env use {World, clock}

  -- With an interval of at least 1 ms `pollJobStatus` ends. It asks for the job in rounds, with a
  -- pause behind each, as long as no answer has a target status, no request throws and the timeout has
  -- not passed. Then it returns the job that has a target status, throws what the request throws, or
  -- returns, after the timeout, the job of the last answer that had a status, or `null` without one.
  pub poll_job_status-Polls :
      (targets : List String) (id : Value) (timeout_ms interval_ms : ℕ) (w : World)
      → 1 ≤ interval_ms
      → Polls env
          (clock w)
          timeout_ms
          interval_ms
          targets
          id
          null
          w
          (poll_job_status env targets id timeout_ms interval_ms w)
  unfolding poll_job_status
  poll_job_status-Polls targets id timeout_ms interval_ms w p =
      poll_loop-Polls env (clock w) timeout_ms interval_ms targets id (suc timeout_ms) null w p
        (omega arith) (omega arith)
