-- ===== src/Runner/Health.antt =====
-- `waitForServer`.
use job_queue_event_processi.Prelude.{
  ℕ, zero, suc, ◌+◌, ◌*◌, ◌≤◌, ◌≡◌, ◌⊎◌, inl, inr, refl, ◌==◌, String, Bool, true, false, ◌&&◌,
  ◌||◌, if◌then◌else◌, Bool-cases, arith,
}
use job_queue_event_processi.Js.Value.{Value, opt_prop, truthy, is_str}
use job_queue_event_processi.Js.Outcome.{
  Outcome, done, exited, Script, ◌>>=◌, ◌>>◌, return, exit, catch, prop, lift,
}
use job_queue_event_processi.Js.Env.{Env, health, Reply}
use job_queue_event_processi.Js.Http.{
  get_from, fetch_reply, json, wait, bind-IsPlain, return-IsPlain, if-IsPlain, prop-IsPlain,
  fetch_reply-IsPlain, json-IsPlain, catch-done, IsPlain,
}

-- `c && c.name && c.name.status === 'UP'`.
abbrev pub is_up : Value → String → Bool
is_up components name =
    let part = opt_prop components name in
    truthy components && truthy part && is_str (opt_prop part "status") "UP"

module _ (env : Env) where
  open env use {World, clock, pause, pause_lasts}

  abbrev health_of : Value → Outcome Bool
  health_of components = done (is_up components "db" && is_up components "redis")

  abbrev body_health : Reply → Script World Bool
  body_health res = do
    body ← json env res
    components ← lift (prop body "components")
    lift (health_of components)

  abbrev ask : Script World Bool
  ask = do
    res ← fetch_reply env (get_from health)
    if res.status == 200 || res.status == 503 then body_health res else return false

  -- One attempt, with its `catch`.
  unfoldable pub probe : Script World Bool
  probe = catch ask (λ e. return false)

  unfoldable pub attempts_left : ℕ → Script World Bool
  attempts_left zero = exit 1
  attempts_left (suc n) = do
    up ← probe
    if up then return true else (wait env 1000 >> attempts_left n)

  unfoldable pub wait_for_server : (max_attempts : ℕ) → Script World Bool
  unfolding attempts_left
  wait_for_server max_attempts = attempts_left max_attempts

  ask-IsPlain : IsPlain env ask
  ask-IsPlain = bind-IsPlain env _ _ (fetch_reply-IsPlain env (get_from health)) (λ res.
      if-IsPlain env (res.status == 200 || res.status == 503) _ _
        (bind-IsPlain env _ _ (json-IsPlain env res) (λ body.
          bind-IsPlain env _ _ (prop-IsPlain env body "components")
            (λ components. return-IsPlain env _)))
        (return-IsPlain env false))

  -- `waitForServer` either reports a healthy server or exits with code 1, and exits only after a
  -- second for each attempt.
  pub wait_for_server_ends :
      (max_attempts : ℕ) (w : World)
      → let r = wait_for_server max_attempts w in
        (r.0 ≡ done true) ⊎ ((r.0 ≡ exited 1) × (clock w + max_attempts * 1000 ≤ clock r.1))
  unfolding wait_for_server attempts_left probe
  wait_for_server_ends zero w = inr (refl, omega arith)
  wait_for_server_ends (suc n) w =
      let (b, got, later) = catch-done env ask false w ask-IsPlain in
      let w' = (probe w).1 in
      let rest = wait_for_server_ends n (pause 1000 w') in
      let slept = pause_lasts 1000 w' in
      rw got (elim (Bool-cases b) [
        | inl up ↦ rw up (inl refl)
        | inr down ↦
            rw down (elim rest [ inl ok ↦ inl ok | inr (exit_1, t) ↦ inr (exit_1, omega arith) ])
      ])
