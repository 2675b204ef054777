-- ===== src/E2e/Verdict.antt =====
-- `main` of e2e-test.js: the check of the infrastructure, the suites, and the exit code.
use mathlib.Core.List.{append-nil, append_assoc}
use job_queue_event_processi.Prelude.{
  ℕ, ◌+◌, ◌≡◌, ◌<◌, ◌⊎◌, inl, inr, refl, sym, subst, ap, ◌∙◌, ltb, ltb→lt, String, Bool, true,
  false, ◌&&◌, if◌then◌else◌, Bool-cases, List, [], ◌∷◌, ◌++◌, arith,
}
use job_queue_event_processi.Js.Value.{Value, opt_prop, is_str}
use job_queue_event_processi.Js.Outcome.{
  Outcome, done, thrown, exited, out_of_fuel, Script, ◌>>◌, return, exit, catch,
}
use job_queue_event_processi.Js.Env.{Env, Request, health}
use job_queue_event_processi.Js.Http.{get_from, IsAnswer}
use job_queue_event_processi.E2e.Polling.{Response, http, http-IsPlain}
use job_queue_event_processi.E2e.Totals.{
  SuiteResult, Totals, Test, Counted, run_suite, ArePlain, trues, falses, verdicts, world_after,
  run_suite-SuiteRan,
}

-- `health.body?.components?.name?.status === 'UP'`.
abbrev pub is_part_up : Value → String → Bool
is_part_up body name = is_str (opt_prop (opt_prop (opt_prop body "components") name) "status") "UP"

abbrev pub zero_totals : Totals
zero_totals = record { total_passed = 0; total_failed = 0; suite_results = [] }

module _ (env : Env) where
  open env use {World}

  abbrev pub Suite : Type 0
  Suite = String × List (Test env)

  -- The pre-flight check, with its `catch`.
  abbrev pub checked : Outcome Response → Script World (Unit {0})
  checked (done res) w =
      (if is_part_up res.body "db" && is_part_up res.body "redis" then return tt else exit 1) w
  checked (thrown e) w = (exited 1, w)
  checked (exited n) w = (exited n, w)
  checked out_of_fuel w = (out_of_fuel, w)

  unfoldable pub pre_flight : Script World (Unit {0})
  pre_flight w = let got = http env (get_from health) w in checked got.0 got.1

  unfoldable pub run_suites : List Suite → Counted env (Unit {0})
  run_suites [] = return tt
  run_suites (suite ∷ suites) = run_suite env suite.0 suite.1 >> run_suites suites

  abbrev pub verdict : Counted env (Unit {0})
  verdict (w, t) = if ltb 0 t.total_failed then (exited 1, (w, t)) else (exited 0, (w, t))

  abbrev pub flight : Counted env (Unit {0})
  flight (w, t) = let up = pre_flight w in (up.0, (up.1, t))

  -- `main()` with the `catch` of the last lines.
  unfoldable pub main : List Suite → Counted env (Unit {0})
  main suites = catch (flight >> run_suites suites >> verdict) (λ e. exit 1)

  -- The infrastructure is up: the health check is answered, and says so of the database and of Redis.
  abbrev pub says_up : Outcome Response → Bool
  says_up (done res) = is_part_up res.body "db" && is_part_up res.body "redis"
  says_up (thrown e) = false
  says_up (exited n) = false
  says_up out_of_fuel = false

  abbrev pub is_up : World → Bool
  is_up w = says_up (http env (get_from health) w).0

  pre_flight_decides :
      (w : World)
      → ((is_up w ≡ true) × ((pre_flight w).0 ≡ done tt))
        ⊎ ((is_up w ≡ false) × ((pre_flight w).0 ≡ exited 1))
  unfolding pre_flight
  pre_flight_decides w = go (http env ask w).0 (http env ask w).1 ((http-IsPlain env ask).answer w)
    where
      ask : Request
      ask = get_from health

      go :
          (o : Outcome Response) (w' : World)
          → IsAnswer o
          → ((says_up o ≡ true) × ((checked o w').0 ≡ done tt))
            ⊎ ((says_up o ≡ false) × ((checked o w').0 ≡ exited 1))
      go (done res) w' a =
          elim (Bool-cases (is_part_up res.body "db" && is_part_up res.body "redis")) [
            | inl up ↦ rw up (inl (refl, refl))
            | inr down ↦ rw down (inr (refl, refl))
          ]
      go (thrown e) w' a = inr (refl, refl)
      go (exited n) w' a = absurd a
      go out_of_fuel w' a = absurd a

  abbrev pub AreAllPlain : List Suite → Type 0
  AreAllPlain [] = Unit {0}
  AreAllPlain (suite ∷ suites) = ArePlain env suite.1 × AreAllPlain suites

  -- The results of some suites that run one after the other from a world: each counts the tests of its
  -- suite that pass and those that throw.
  abbrev pub Match : List Suite → World → List SuiteResult → Type 0
  Match [] w [] = Unit {0}
  Match [] w (r ∷ rs) = ⊥
  Match (suite ∷ suites) w [] = ⊥
  Match (suite ∷ suites) w (r ∷ rs) =
      (r.name ≡ suite.0)
      × (r.passed ≡ trues env (verdicts env suite.1 w))
      × (r.failed ≡ falses env (verdicts env suite.1 w))
      × Match suites (world_after env suite.1 w) rs

  -- How many tests of the suites throw.
  abbrev pub throws : List Suite → World → ℕ
  throws [] w = 0
  throws (suite ∷ suites) w =
      falses env (verdicts env suite.1 w) + throws suites (world_after env suite.1 w)

  -- What the suites add to the counters.
  record AllRan (suites : List Suite) (w : World) (o : Outcome (Unit {0})) (t t' : Totals)
      : Type 0 where
    new : List SuiteResult
    ended : o ≡ done tt
    matching : Match suites w new
    pushed : t'.suite_results ≡ t.suite_results ++ new
    failures : t'.total_failed ≡ t.total_failed + throws suites w

  run_suites-AllRan :
      (suites : List Suite) (w : World) (t : Totals)
      → AreAllPlain suites
      → let r = run_suites suites (w, t) in AllRan suites w r.0 t r.1.1
  unfolding run_suites
  run_suites-AllRan [] w t h = record {
    new = [];
    ended = refl;
    matching = tt;
    pushed = sym (append-nil t.suite_results);
    failures = omega arith;
  }
  run_suites-AllRan (suite ∷ suites) w t (plain, h) =
      let first = run_suite-SuiteRan env suite.0 suite.1 w t plain in
      let s₁ = (run_suite env suite.0 suite.1 (w, t)).1 in
      let rest : AllRan suites (world_after env suite.1 w) (run_suites suites s₁).0 s₁.1
          (run_suites suites s₁).1.1 =
        subst (λ v. AllRan suites v (run_suites suites s₁).0 s₁.1 (run_suites suites s₁).1.1)
          first.world (run_suites-AllRan suites s₁.0 s₁.1 h) in
      rw first.ended (record {
        new = first.result ∷ rest.new;
        ended = rest.ended;
        matching = (first.named, first.passed, first.failed, rest.matching);
        pushed =
            rest.pushed
            ∙ ap (λ rs. rs ++ rest.new) first.pushed
            ∙ append_assoc t.suite_results (first.result ∷ []) rest.new;
        failures = omega (arith, rest.failures, first.failures, first.failed);
      })

  -- The runner of suites whose tests each pass or throw always exits. Where the infrastructure is not
  -- up it exits with code 1 before any suite. Else it runs every suite, with a result that counts the
  -- tests that pass and those that throw, and exits with code 0 if no test throws and with code 1 if
  -- one does.
  pub main_exits :
      (suites : List Suite) (w : World)
      → AreAllPlain suites
      → let r = main suites (w, zero_totals) in
        let results = r.1.1.suite_results in
        let begin = (pre_flight w).1 in
        ((is_up w ≡ false) × (r.0 ≡ exited 1) × (results ≡ []))
        ⊎ ((is_up w ≡ true)
            × Match suites begin results
            × (((throws suites begin ≡ 0) × (r.0 ≡ exited 0))
                ⊎ ((0 < throws suites begin) × (r.0 ≡ exited 1))))
  unfolding main
  main_exits suites w h = elim (pre_flight_decides w) [
    | inr (broken, down) ↦ rw down (inl (broken, refl, refl))
    | inl (works, up) ↦
        let ran = run_suites-AllRan suites (pre_flight w).1 zero_totals h in
        let t' = (run_suites suites ((pre_flight w).1, zero_totals)).1.1 in
        rw (up, ran.ended)
          (inr (elim (Bool-cases (ltb 0 t'.total_failed)) [
            | inl bad ↦
                rw (bad, ran.pushed)
                  (works, ran.matching, inr (omega (arith, ran.failures, ltb→lt _ _ bad), refl))
            | inr good ↦
                rw (good, ran.pushed)
                  (works, ran.matching, inl (ground (arith, ran.failures), refl))
          ]))
  ]
