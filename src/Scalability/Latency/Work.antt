-- ===== src/Scalability/Latency/Work.antt =====
-- The chains of a wave all come to their ends, in whatever order the events come.
use job_queue_event_processi.Prelude.{
  ℕ, zero, suc, ◌≤◌, ◌<◌, ◌≡◌, ◌∙◌, inl, inr, refl, ap, sym, subst, length-append, true, false,
  Bool-cases, List, [], ◌∷◌, ◌++◌, map, length, get_or, arith,
}
use job_queue_event_processi.Js.Outcome.{Outcome, done}
use job_queue_event_processi.Js.Env.{Env, Request, idle, asked, timer, is_live, any_live, Fetched}
use job_queue_event_processi.Scalability.Latency.{
  E2eResult, Stage, submitting, asking, resting, settled, Chain, go_on, total_work, result_of,
  results_of, pending, waits_for, advance, run_chains, started, run_wave,
}
use job_queue_event_processi.Scalability.Latency.Results.{
  Answers, IsResult, IsTimed, IsDue, go_on-Moved,
}

module _ (env : Env) where
  open env use {World, clock, parse, next, next_live, next_later, next_due}

  -- Every chain of a list has noted what it should by a time.
  abbrev pub AllTimed : (now : ℕ) → List Chain → Type 0
  AllTimed now [] = Unit {0}
  AllTimed now (c ∷ cs) = IsTimed env c.label c.submit_ts now c.stage × AllTimed now cs

  abbrev pub AllResults : List E2eResult → Type 0
  AllResults [] = Unit {0}
  AllResults (r ∷ rs) = IsResult env r × AllResults rs

  IsTimed-later :
      (label s now t : ℕ) (st : Stage)
      → now ≤ t
      → IsTimed env label s now st
      → IsTimed env label s t st
  IsTimed-later label s now t submitting h timed = omega arith
  IsTimed-later label s now t (asking sub deadline sent) h (a, b, had) = (a, omega arith, had)
  IsTimed-later label s now t (resting sub deadline due) h timed = timed
  IsTimed-later label s now t (settled r) h timed = timed

  AllTimed-later : (now t : ℕ) (cs : List Chain) → now ≤ t → AllTimed now cs → AllTimed t cs
  AllTimed-later now t [] h timed = tt
  AllTimed-later now t (c ∷ cs) h (timed, rest) =
      (IsTimed-later c.label c.submit_ts now t c.stage h timed, AllTimed-later now t cs h rest)

  -- A live chain whose timer is not early, and whose request is answered, can go on.
  IsDue-waits_for :
      (label t : ℕ) (f : Fetched) (st : Stage)
      → is_live (waits_for env label st) ≡ true
      → ((due : ℕ) → waits_for env label st ≡ timer due → due ≤ t)
      → ((req : Request) → waits_for env label st ≡ asked req → Answers env req t f)
      → IsDue env label t f st
  IsDue-waits_for label t f submitting live h k = k _ refl
  IsDue-waits_for label t f (asking sub deadline sent) live h k = k _ refl
  IsDue-waits_for label t f (resting sub deadline due) live h k = h due refl
  IsDue-waits_for label t f (settled r) live h k = ground arith

  -- What one event does to the chains.
  record Advanced (t : ℕ) (cs cs' : List Chain) : Type 0 where
    less : total_work cs' < total_work cs
    timed : AllTimed t cs'
    same : length cs' ≡ length cs

  advance-Advanced :
      (cs : List Chain) (i now t : ℕ) (f : Fetched)
      → AllTimed now cs
      → now ≤ t
      → is_live (get_or (map (pending env) cs) i idle) ≡ true
      → ((due : ℕ) → get_or (map (pending env) cs) i idle ≡ timer due → due ≤ t)
      → ((req : Request) → get_or (map (pending env) cs) i idle ≡ asked req → Answers env req t f)
      → Advanced t cs (advance env i t f cs)
  advance-Advanced [] i now t f timed later live due answered = ground arith
  advance-Advanced (c ∷ cs) zero now t f (timed, rest) later live due answered =
      let m =
        go_on-Moved env t now f c.stage c timed later
          (IsDue-waits_for c.label t f c.stage live due answered) in
      let stage = (go_on parse t f c.stage c).stage in
      let at_start = subst (λ s. IsTimed env c.label s t stage) (sym m.same) m.timed in
      record {
        less = omega (arith, m.less);
        timed = (
          subst (λ l. IsTimed env l (go_on parse t f c.stage c).submit_ts t stage)
              (sym m.same_label) at_start,
          AllTimed-later now t cs later rest,
        );
        same = refl;
      }
  advance-Advanced (c ∷ cs) (suc i) now t f (timed, rest) later live due answered =
      let r = advance-Advanced cs i now t f rest later live due answered in
      record {
        less = omega (arith, r.less);
        timed = (IsTimed-later c.label c.submit_ts now t c.stage later timed, r.timed);
        same = ap suc r.same;
      }

  -- Chains that wait for nothing are settled, each with a result.
  idle-settled :
      (label s t : ℕ) (st : Stage)
      → is_live (waits_for env label st) ≡ false
      → IsTimed env label s t st
      → AllResults (result_of st) × (length (result_of st) ≡ 1)
  idle-settled label s t submitting live timed = ground arith
  idle-settled label s t (asking sub deadline sent) live timed = ground arith
  idle-settled label s t (resting sub deadline due) live timed = ground arith
  idle-settled label s t (settled r) live timed = ((timed, tt), refl)

  pub AllResults-append :
      (rs qs : List E2eResult) → AllResults rs → AllResults qs → AllResults (rs ++ qs)
  AllResults-append [] qs h g = g
  AllResults-append (r ∷ rs) qs (h, hs) g = (h, AllResults-append rs qs hs g)

  all_settled :
      (t : ℕ) (cs : List Chain)
      → any_live (map (pending env) cs) ≡ false
      → AllTimed t cs
      → AllResults (results_of cs) × (length (results_of cs) ≡ length cs)
  all_settled t [] none_live timed = (tt, refl)
  all_settled t (c ∷ cs) none_live (timed, rest) =
      let here = idle-settled c.label c.submit_ts t c.stage (ground arith) timed in
      let others = all_settled t cs (ground arith) rest in
      (
        AllResults-append (result_of c.stage) (results_of cs) here.0 others.0,
        omega (arith, length-append (result_of c.stage) (results_of cs), here.1, others.1),
      )

  -- A wave that has ended with a result for each of `n` chains.
  abbrev pub Ended : (n : ℕ) → Outcome (List Chain) → Type 0
  Ended n o =
      (cs : List Chain) × (o ≡ done cs) × AllResults (results_of cs) × (length (results_of cs) ≡ n)

  run_chains-Ended :
      (fuel : ℕ) (cs : List Chain) (w : World)
      → total_work cs < fuel
      → AllTimed (clock w) cs
      → Ended (length cs) (run_chains env fuel cs w).0
        × (clock w ≤ clock (run_chains env fuel cs w).1)
  unfolding run_chains
  run_chains-Ended zero cs w enough timed = absurd (omega arith)
  run_chains-Ended (suc fuel) cs w enough timed =
      elim (Bool-cases (any_live (map (pending env) cs))) [
        | inr over ↦
            rw over
              (let r = all_settled (clock w) cs over timed in ((cs, refl, r.0, r.1), omega arith))
        | inl live ↦
            let ps = map (pending env) cs in
            let event = next ps w in
            let a =
              advance-Advanced cs event.0.0 (clock w) (clock event.1) event.0.1 timed
                (next_later ps w) (next_live ps w live) (next_due ps w)
                (λ req waiting. record {
                  ps = ps;
                  w = w;
                  waiting = waiting;
                  answer = refl;
                  time = refl;
                }) in
            let cs' = advance env event.0.0 (clock event.1) event.0.1 cs in
            let ((ended, ok, good, size), later) =
              run_chains-Ended fuel cs' event.1 (omega (arith, a.less)) a.timed in
            rw live ((ended, ok, good, size ∙ a.same), omega (arith, later, next_later ps w))
      ]

  started-AllTimed : (t j n : ℕ) → AllTimed t (started env t j n)
  started-AllTimed t j zero = tt
  started-AllTimed t j (suc n) = (omega arith, started-AllTimed t (suc j) n)

  length-started : (t j n : ℕ) → length (started env t j n) ≡ n
  length-started t j zero = refl
  length-started t j (suc n) = ap suc (length-started t (suc j) n)

  -- A wave of phase 2 comes to its end, whatever the server answers and in whatever order its five
  -- chains go on. It returns five results, each of one of the three kinds.
  pub run_wave_ends :
      (i : ℕ) (w : World)
      → (results : List E2eResult) × ((run_wave env i w).0 ≡ done results)
        × (length results ≡ 5)
        × AllResults results
        × (clock w ≤ clock (run_wave env i w).1)
  unfolding run_wave
  run_wave_ends i w =
      let cs = started env (clock w) i 5 in
      let ((ended, ok, good, size), later) =
        run_chains-Ended (suc (total_work cs)) cs w (omega arith)
          (started-AllTimed (clock w) i 5) in
      rw ok (results_of ended, refl, size ∙ length-started (clock w) i 5, good, later)
