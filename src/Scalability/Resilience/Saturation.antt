-- ===== src/Scalability/Resilience/Saturation.antt =====
-- What the rate-limiter test of phase 4 can report.
use job_queue_event_processi.Prelude.{
  ℕ, zero, suc, ◌+◌, ◌≤◌, ◌<◌, ◌≡◌, inl, inr, refl, ap, ◌∙◌, ltb, ltb→lt, Bool-cases, if◌then◌else◌,
  Option, none, some, List, [], ◌∷◌, length, length-map, arith,
}
use job_queue_event_processi.Js.Value.{Value, opt_prop, truthy, is_str}
use job_queue_event_processi.Js.Outcome.{done}
use job_queue_event_processi.Js.Env.{Env, job}
use job_queue_event_processi.Scalability.Client.{
  Submission, accepted, get_job, get_request, body_or_null, submission,
}
use job_queue_event_processi.Scalability.Throughput.{landed}
use job_queue_event_processi.Scalability.Throughput.Rows.{length-accepted-rejected}
use job_queue_event_processi.Scalability.Resilience.{
  Triggered, Reaction, tally, observe, recovered, saturation_requests, submit_saturation,
  rate_limiter_saturation,
}

tally-rl_retry : (v : Value) (r : Reaction) → (tally v r).rl_retry ≤ suc r.rl_retry
tally-rl_retry v r = ground arith

length-accepted : (rs : List Submission) → length (accepted rs) ≤ length rs
length-accepted rs = omega (arith, length-accepted-rejected rs)

length-saturation_requests : (env : Env) (i n : ℕ) → length (saturation_requests env i n) ≡ n
unfolding saturation_requests
length-saturation_requests env i zero = refl
length-saturation_requests env i (suc n) = ap suc (length-saturation_requests env (suc i) n)

-- What the rate-limiter test reports.
abbrev pub IsBounded : Option Triggered → Type 0
IsBounded none = Unit {0}
IsBounded (some t) = (0 < t.retry_count) × (t.retry_count ≤ 20) × (t.final_completed ≤ 20)

module _ (env : Env) where
  open env use {World, pause, parse, fetch, fetch_all, length-fetch_all}

  observe_bound :
      (subs : List Submission) (r : Reaction) (w : World)
      → (r' : Reaction) × ((observe env subs r w).0 ≡ done r')
        × (r'.rl_retry ≤ r.rl_retry + length subs)
  unfolding observe get_job
  observe_bound [] r w = (r, refl, omega arith)
  observe_bound (sub ∷ subs) r w = elim (Bool-cases (truthy sub.id)) [
    | inr missing ↦ rw missing (let (r', ok, h) = observe_bound subs r w in (r', ok, omega arith))
    | inl there ↦ rw there (
        let w' = (get_job env sub.id w).1 in
        let answer = body_or_null parse (fetch (get_request (job sub.id)) w).0 in
        elim (Bool-cases (truthy answer)) [
          | inr gone ↦ rw gone (let (r', ok, h) = observe_bound subs r w' in (r', ok, omega arith))
          | inl found ↦ rw found (
              let (r', ok, h) = observe_bound subs (tally answer r) w' in
              (r', ok, omega (arith, h, tally-rl_retry answer r)))
        ])
  ]

  recovered_bound :
      (subs : List Submission) (n : ℕ) (w : World)
      → (m : ℕ) × ((recovered env subs n w).0 ≡ done m) × (m ≤ n + length subs)
  unfolding recovered get_job
  recovered_bound [] n w = (n, refl, omega arith)
  recovered_bound (sub ∷ subs) n w = elim (Bool-cases (truthy sub.id)) [
    | inr missing ↦ rw missing (let (m, ok, h) = recovered_bound subs n w in (m, ok, omega arith))
    | inl there ↦ rw there (
        let w' = (get_job env sub.id w).1 in
        let answer = body_or_null parse (fetch (get_request (job sub.id)) w).0 in
        let completed = is_str (opt_prop answer "status") "COMPLETED" in
        let (m, ok, h) = recovered_bound subs (if completed then suc n else n) w' in
        (m, ok, ground (arith, h)))
  ]

  submitted_bound :
      (w : World)
      → (subs : List Submission) × ((submit_saturation env w).0 ≡ done subs) × (length subs ≤ 20)
  unfolding submit_saturation
  submitted_bound w =
      let requests = saturation_requests env 0 20 in
      let all = fetch_all requests w in
      let results = landed env all.0 in
      let count =
        length-map all.0 (λ d. submission parse d.since d.at d.fetched)
        ∙ length-fetch_all requests w
        ∙ length-saturation_requests env 0 20 in
      (accepted results, refl, omega (arith, length-accepted results, count))

  -- The rate-limiter test of phase 4 always comes to a result. Where it reports that the limiter was
  -- triggered, between 1 and 20 jobs were seen in RETRY, and at most 20 are COMPLETED in the end.
  pub rate_limiter_reports :
      (w : World)
      → (r : Option Triggered) × ((rate_limiter_saturation env w).0 ≡ done r) × IsBounded r
  unfolding rate_limiter_saturation
  rate_limiter_reports w =
      let (rl_ok, sent, few) = submitted_bound w in
      let w₁ = pause 5000 (submit_saturation env w).1 in
      let nothing : Reaction = record { rl_retry = 0; rl_completed = 0; rl_failed = 0 } in
      let (reaction, observed, h) = observe_bound rl_ok nothing w₁ in
      let w₂ = pause 30000 (observe env rl_ok nothing w₁).1 in
      let (final_completed, counted, g) = recovered_bound rl_ok 0 w₂ in
      rw (sent, observed)
        (elim (Bool-cases (ltb 0 reaction.rl_retry)) [
          | inr quiet ↦ rw quiet (none, refl, tt)
          | inl engaged ↦
              rw (engaged, counted)
                (some _, refl, (ltb→lt 0 reaction.rl_retry engaged, omega arith, omega arith))
        ])
