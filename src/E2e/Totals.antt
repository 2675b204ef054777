-- ===== src/E2e/Totals.antt =====
-- `assert`, `runTest` and `runSuite`, over the counters of the script.
use job_queue_event_processi.Prelude.{
  ℕ, suc, ◌+◌, ◌≡◌, refl, String, Bool, true, false, if◌then◌else◌, List, [], ◌∷◌, ◌++◌, length, ap,
  arith,
}
use job_queue_event_processi.Js.Outcome.{
  Outcome, done, thrown, exited, out_of_fuel, Script, ◌>>=◌, return, throw,
}
use job_queue_event_processi.Js.Env.{Env}
use job_queue_event_processi.Js.Http.{IsPlain, IsAnswer}

pub record SuiteResult : Type 0 where
  pub name : String
  pub passed : ℕ
  pub failed : ℕ
  pub total : ℕ

-- `totalPassed`, `totalFailed` and `suiteResults`.
pub record Totals : Type 0 where
  pub total_passed : ℕ
  pub total_failed : ℕ
  pub suite_results : List SuiteResult

module _ (env : Env) where
  open env use {World}

  abbrev pub Test : Type 0
  Test = String × Script World (Unit {0})

  abbrev pub Counted : Type 0 → Type 0
  Counted A = Script (World × Totals) A

  unfoldable pub assert : Bool → String → Script World (Unit {0})
  assert condition message = if condition then return tt else throw message

  -- `runTest`, for what the test came to.
  unfoldable pub judge : Outcome (Unit {0}) → Counted Bool
  judge (done u) (w, t) = (done true, (w, record t { total_passed = t.total_passed + 1 }))
  judge (thrown e) (w, t) = (done false, (w, record t { total_failed = t.total_failed + 1 }))
  judge (exited n) (w, t) = (exited n, (w, t))
  judge out_of_fuel (w, t) = (out_of_fuel, (w, t))

  unfoldable pub run_test : Test → Counted Bool
  run_test (name, fn) (w, t) = judge (fn w).0 ((fn w).1, t)

  -- The loop of `runSuite`: how many tests passed and failed.
  unfoldable pub run_tests : List Test → (passed failed : ℕ) → Counted (ℕ × ℕ)
  run_tests [] passed failed = return (passed, failed)
  run_tests (test ∷ tests) passed failed = do
    ok ← run_test test
    if ok then run_tests tests (passed + 1) failed else run_tests tests passed (failed + 1)

  abbrev pub push_result : SuiteResult → Counted (Unit {0})
  push_result r (w, t) = (done tt, (w, record t { suite_results = t.suite_results ++ r ∷ [] }))

  unfoldable pub run_suite : String → List Test → Counted (Unit {0})
  run_suite name tests = do
    counts ← run_tests tests 0 0
    push_result (record { name = name; passed = counts.0; failed = counts.1; total = length tests })

  -- Each test passes or throws.
  abbrev pub ArePlain : List Test → Type 0
  ArePlain [] = Unit {0}
  ArePlain (test ∷ tests) = IsPlain env test.1 × ArePlain tests

  -- Which tests pass, that is return, when they run one after the other, and the world behind them.
  abbrev pub returns : Outcome (Unit {0}) → Bool
  returns (done u) = true
  returns (thrown e) = false
  returns (exited n) = false
  returns out_of_fuel = false

  abbrev pub verdicts : List Test → World → List Bool
  verdicts [] w = []
  verdicts (test ∷ tests) w = returns (test.1 w).0 ∷ verdicts tests (test.1 w).1

  abbrev pub world_after : List Test → World → World
  world_after [] w = w
  world_after (test ∷ tests) w = world_after tests (test.1 w).1

  abbrev pub trues : List Bool → ℕ
  trues [] = 0
  trues (true ∷ bs) = suc (trues bs)
  trues (false ∷ bs) = trues bs

  abbrev pub falses : List Bool → ℕ
  falses [] = 0
  falses (true ∷ bs) = falses bs
  falses (false ∷ bs) = suc (falses bs)

  -- What the loop over the tests comes to.
  record Ran (passed failed : ℕ) (bs : List Bool) (w : World) (t : Totals)
      (r : Outcome (ℕ × ℕ) × (World × Totals)) : Type 0 where
    p : ℕ
    f : ℕ
    ok : r.0 ≡ done (p, f)
    all_passes : p ≡ passed + trues bs
    all_failures : f ≡ failed + falses bs
    world : r.1.0 ≡ w
    passes : r.1.1.total_passed + passed ≡ t.total_passed + p
    failures : r.1.1.total_failed + failed ≡ t.total_failed + f
    results : r.1.1.suite_results ≡ t.suite_results

  run_tests-Ran :
      (tests : List Test) (passed failed : ℕ) (w : World) (t : Totals)
      → ArePlain tests
      → Ran passed failed
          (verdicts tests w)
          (world_after tests w)
          t
          (run_tests tests passed failed (w, t))
  unfolding run_tests run_test judge
  run_tests-Ran [] passed failed w t h = record {
    p = passed;
    f = failed;
    ok = refl;
    all_passes = omega arith;
    all_failures = omega arith;
    world = refl;
    passes = refl;
    failures = refl;
    results = refl;
  }
  run_tests-Ran ((name, fn) ∷ tests) passed failed w t (plain, h) =
      go (λ p f w' t'. run_tests-Ran tests p f w' t' h) (fn w).0 (fn w).1 (plain.answer w)
    where
      next : Bool → Counted (ℕ × ℕ)
      next ok =
          if ok then run_tests tests (passed + 1) failed else run_tests tests passed (failed + 1)

      Rest : Type 0
      Rest =
          (p f : ℕ) (w' : World) (t' : Totals)
          → Ran p f (verdicts tests w') (world_after tests w') t' (run_tests tests p f (w', t'))

      go :
          Rest
          → (o : Outcome (Unit {0})) (w' : World) → IsAnswer o
          → Ran passed failed
              (returns o ∷ verdicts tests w')
              (world_after tests w')
              t
              ((judge o >>= next) (w', t))
      go rest (done u) w' a =
          let t' = record t { total_passed = t.total_passed + 1 } in
          let r = rest (passed + 1) failed w' t' in
          record {
            p = r.p;
            f = r.f;
            ok = r.ok;
            all_passes = omega (arith, r.all_passes);
            all_failures = r.all_failures;
            world = r.world;
            passes = omega (arith, r.passes);
            failures = r.failures;
            results = r.results;
          }
      go rest (thrown e) w' a =
          let t' = record t { total_failed = t.total_failed + 1 } in
          let r = rest passed (failed + 1) w' t' in
          record {
            p = r.p;
            f = r.f;
            ok = r.ok;
            all_passes = r.all_passes;
            all_failures = omega (arith, r.all_failures);
            world = r.world;
            passes = r.passes;
            failures = omega (arith, r.failures);
            results = r.results;
          }
      go rest (exited n) w' a = absurd a
      go rest out_of_fuel w' a = absurd a

  -- What a suite adds to the counters: one result, with the number of tests that pass and of those
  -- that throw, by which the totals grow. The world is the one behind all tests.
  pub record SuiteRan (name : String) (tests : List Test) (w : World) (t : Totals)
      (r : Outcome (Unit {0}) × (World × Totals)) : Type 0 where
    pub result : SuiteResult
    pub ended : r.0 ≡ done tt
    pub named : result.name ≡ name
    pub size : result.total ≡ length tests
    pub passed : result.passed ≡ trues (verdicts tests w)
    pub failed : result.failed ≡ falses (verdicts tests w)
    pub world : r.1.0 ≡ world_after tests w
    pub pushed : r.1.1.suite_results ≡ t.suite_results ++ result ∷ []
    pub passes : r.1.1.total_passed ≡ t.total_passed + result.passed
    pub failures : r.1.1.total_failed ≡ t.total_failed + result.failed

  -- A suite whose tests each pass or throw comes to its end. It runs every test, one after the other,
  -- counts as passed the tests that return and as failed those that throw, and adds these numbers to
  -- the totals.
  pub run_suite-SuiteRan :
      (name : String) (tests : List Test) (w : World) (t : Totals)
      → ArePlain tests
      → SuiteRan name tests w t (run_suite name tests (w, t))
  unfolding run_suite
  run_suite-SuiteRan name tests w t h =
      let ran = run_tests-Ran tests 0 0 w t h in
      let result : SuiteResult = record {
        name = name;
        passed = ran.p;
        failed = ran.f;
        total = length tests;
      } in
      rw ran.ok (record {
        result = result;
        ended = refl;
        named = refl;
        size = refl;
        passed = omega (arith, ran.all_passes);
        failed = omega (arith, ran.all_failures);
        world = ran.world;
        pushed = ap (λ rs. rs ++ result ∷ []) ran.results;
        passes = omega (arith, ran.passes);
        failures = omega (arith, ran.failures);
      })
