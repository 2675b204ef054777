-- ===== src/Js/Ending.antt =====
-- Scripts that come to an end: with a result of some kind, an exception, or exit code 1.
use job_queue_event_processi.Prelude.{
  ◌≡◌, refl, sym, subst, String, Bool, true, false, if◌then◌else◌,
}
use job_queue_event_processi.Js.Outcome.{
  Outcome, done, thrown, exited, out_of_fuel, Script, ◌>>=◌, return, exit, catch, and_then,
  on_thrown,
}
use job_queue_event_processi.Js.Env.{Env}
use job_queue_event_processi.Js.Http.{IsPlain, IsAnswer}

abbrev pub IsEnding : {A : Type 0} → (A → Type 0) → Outcome A → Type 0
IsEnding P (done a) = P a
IsEnding P (thrown e) = Unit
IsEnding P (exited n) = n ≡ 1
IsEnding P out_of_fuel = ⊥

abbrev pub Any : {A : Type 0} → A → Type 0
Any a = Unit

module _ {W : Type 0} where
  -- From every world the script comes to an end, and its result is as `P` says.
  pub record Ends {A : Type 0} (P : A → Type 0) (m : Script W A) : Type 0 where
    pub end : (w : W) → IsEnding P (m w).0

  pub bind-Ends :
      {A B : Type 0} {P : A → Type 0} {Q : B → Type 0} (m : Script W A) (f : A → Script W B)
      → Ends P m
      → ((a : A) → P a → Ends Q (f a))
      → Ends Q (m >>= f)
  bind-Ends {A} {B} {P} {Q} m f h k = record { end = λ w. go (m w).0 (m w).1 (h.end w) }
    where
      go : (o : Outcome A) (w : W) → IsEnding P o → IsEnding Q (and_then o f w).0
      go (done a) w g = (k a g).end w
      go (thrown e) w g = tt
      go (exited n) w g = g
      go out_of_fuel w g = absurd g

  pub catch-Ends :
      {A : Type 0} {P : A → Type 0} (m : Script W A) (f : String → Script W A)
      → Ends P m
      → ((e : String) → Ends P (f e))
      → Ends P (catch m f)
  catch-Ends {A} {P} m f h k = record { end = λ w. go (m w).0 (m w).1 (h.end w) }
    where
      go : (o : Outcome A) (w : W) → IsEnding P o → IsEnding P (on_thrown o f w).0
      go (done a) w g = g
      go (thrown e) w g = (k e).end w
      go (exited n) w g = g
      go out_of_fuel w g = absurd g

  pub return-Ends : {A : Type 0} {P : A → Type 0} (a : A) → P a → Ends P (return a)
  return-Ends a h = record { end = λ w. h }

  pub exit-Ends : {A : Type 0} {P : A → Type 0} → Ends P (exit 1)
  exit-Ends = record { end = λ w. refl }

  pub if-Ends :
      {A : Type 0} {P : A → Type 0} (b : Bool) (m n : Script W A)
      → Ends P m
      → Ends P n
      → Ends P (if b then m else n)
  if-Ends true m n h k = h
  if-Ends false m n h k = k

  -- A script that always has a result comes to an end.
  pub done-Ends :
      {A : Type 0} {P : A → Type 0} (m : Script W A)
      → ((w : W) → (a : A) × ((m w).0 ≡ done a) × P a)
      → Ends P m
  done-Ends {A} {P} m h = record { end = λ w. subst (IsEnding P) (sym (h w).1) (h w).2 }

-- A plain script comes to an end.
pub plain-Ends : {A : Type 0} (env : Env) (m : Script env.World A) → IsPlain env m → Ends Any m
plain-Ends {A} env m h = record { end = λ w. go (m w).0 (h.answer w) }
  where
    go : (o : Outcome A) → IsAnswer o → IsEnding Any o
    go (done a) g = tt
    go (thrown e) g = tt
    go (exited n) g = absurd g
    go out_of_fuel g = absurd g
