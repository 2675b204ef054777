-- ===== src/Runner/Waves/Report.antt =====
-- The waves of `runStressTest`, and the one that it reports.
use job_queue_event_processi.Prelude.{
  ℕ, suc, ◌-◌, ◌≡◌, ◌<◌, inl, inr, refl, ap, ltb, leb, ◌&&◌, if◌then◌else◌, Bool, false, ltb→lt,
  Bool-cases, Option, none, some, List, [], ◌∷◌, ◌++◌, length, arith,
}
use job_queue_event_processi.Js.Outcome.{done}
use job_queue_event_processi.Js.Env.{Env, Delivery, Fetched, answered, refused}
use job_queue_event_processi.Runner.Waves.{
  Wave, result_of, results_of, successful, failed, find_failure, wave_requests, wave, stress_wave,
  stress_waves, run_stress_test, concurrency_levels,
}

-- No request of a wave failed.
abbrev pub IsClean : List Wave → Type 0
IsClean [] = Unit {0}
IsClean (r ∷ rs) = (r.fail_count ≡ 0) × IsClean rs

-- Whether the server took a request: it answered, with a status from 200 to 299.
abbrev pub is_taken : Fetched → Bool
is_taken (answered res) = leb 200 res.status && ltb res.status 300
is_taken (refused e) = false

-- How many of some requests were taken, and how many were not.
abbrev pub taken : List Delivery → ℕ
taken [] = 0
taken (d ∷ ds) = if is_taken d.fetched then suc (taken ds) else taken ds

abbrev pub not_taken : List Delivery → ℕ
not_taken [] = 0
not_taken (d ∷ ds) = if is_taken d.fetched then not_taken ds else suc (not_taken ds)

-- A wave of a list with a failure, before which there is none.
pub record IsFirstFailure (waves : List Wave) (r : Wave) : Type 0 where
  pub before : List Wave
  pub after : List Wave
  pub split : waves ≡ before ++ r ∷ after
  pub clean : IsClean before
  pub failure : 0 < r.fail_count

-- The reported wave is the first with a failure, and without one every wave is clean.
abbrev pub IsReport : List Wave → Option Wave → Type 0
IsReport waves none = IsClean waves
IsReport waves (some r) = IsFirstFailure waves r

skip_clean :
    (r : Wave) (rs : List Wave) (found : Option Wave)
    → r.fail_count ≡ 0
    → IsReport rs found
    → IsReport (r ∷ rs) found
skip_clean r rs none h rest = (h, rest)
skip_clean r rs (some c) h rest = record {
  before = r ∷ rest.before;
  after = rest.after;
  split = ap (◌∷◌ r) rest.split;
  clean = (h, rest.clean);
  failure = rest.failure;
}

find_failure-IsReport : (waves : List Wave) → IsReport waves (find_failure waves)
unfolding find_failure
find_failure-IsReport [] = tt
find_failure-IsReport (r ∷ rs) = elim (Bool-cases (ltb 0 r.fail_count)) [
  | inl bad ↦ rw bad (record {
    before = [];
    after = rs;
    split = refl;
    clean = tt;
    failure = ltb→lt 0 r.fail_count bad;
  })
  | inr good ↦ rw good (skip_clean r rs (find_failure rs) (ground arith) (find_failure-IsReport rs))
]

length-successful : (t : ℕ) (ds : List Delivery) → length (successful (results_of t ds)) ≡ taken ds
unfolding successful results_of
length-successful t [] = refl
length-successful t (d ∷ ds) = go d.fetched (length-successful t ds)
  where
    go :
        (f : Fetched)
        → length (successful (results_of t ds)) ≡ taken ds
        → length (successful (result_of (d.at - t) f ∷ results_of t ds))
          ≡ (if is_taken f then suc (taken ds) else taken ds)
    go (answered res) h = ground arith
    go (refused e) h = h

length-failed : (t : ℕ) (ds : List Delivery) → length (failed (results_of t ds)) ≡ not_taken ds
unfolding failed results_of
length-failed t [] = refl
length-failed t (d ∷ ds) = go d.fetched (length-failed t ds)
  where
    go :
        (f : Fetched)
        → length (failed (results_of t ds)) ≡ not_taken ds
        → length (failed (result_of (d.at - t) f ∷ results_of t ds))
          ≡ (if is_taken f then not_taken ds else suc (not_taken ds))
    go (answered res) h = ground arith
    go (refused e) h = ap suc h

module _ (env : Env) where
  open env use {World, clock, pause, fetch_all}

  -- Waves for some levels, one after the other from a world: each sends the requests of its level and
  -- counts the answers to them.
  abbrev pub AreWaves : List ℕ → World → List Wave → Type 0
  AreWaves [] w [] = Unit {0}
  AreWaves [] w (r ∷ rs) = ⊥
  AreWaves (level ∷ levels) w [] = ⊥
  AreWaves (level ∷ levels) w (r ∷ rs) =
      let sent = fetch_all (wave_requests env level) w in
      (r.concurrency ≡ level)
      × (r.success_count ≡ taken sent.0)
      × (r.fail_count ≡ not_taken sent.0)
      × AreWaves levels (pause 3000 sent.1) rs

  stress_waves-AreWaves :
      (levels : List ℕ) (w : World)
      → (waves : List Wave) × ((stress_waves env levels w).0 ≡ done waves) × AreWaves levels w waves
  unfolding stress_waves stress_wave wave
  stress_waves-AreWaves [] w = ([], refl, tt)
  stress_waves-AreWaves (concurrency ∷ levels) w =
      let all = fetch_all (wave_requests env concurrency) w in
      let results = results_of (clock w) all.0 in
      let r = wave env concurrency (clock all.1 - clock w) results in
      let (rest, ok, good) = stress_waves-AreWaves levels (pause 3000 all.1) in
      rw ok (
        r ∷ rest,
        refl,
        (refl, length-successful (clock w) all.0, length-failed (clock w) all.0, good),
      )

  -- `runStressTest` always ends. It has one wave for each concurrency level, in their order, which
  -- counts as successes the requests of the wave that the server answered with a status from 200 to
  -- 299, and as failures the others. It reports the first wave with a failure, or none where no request
  -- of any wave failed.
  pub run_stress_test_reports :
      (w : World)
      → (waves : List Wave) × (found : Option Wave) × ((run_stress_test env w).0
          ≡ done (waves, found))
        × AreWaves concurrency_levels w waves
        × IsReport waves found
  unfolding run_stress_test
  run_stress_test_reports w =
      let (waves, ok, good) = stress_waves-AreWaves concurrency_levels w in
      rw ok (waves, find_failure waves, refl, good, find_failure-IsReport waves)
