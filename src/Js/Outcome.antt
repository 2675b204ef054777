-- ===== src/Js/Outcome.antt =====
-- What a run of script code comes to: a result, an exception with its message, `process.exit`, or
-- no result within the fuel of a loop.
use job_queue_event_processi.Prelude.{ℕ, String}
use job_queue_event_processi.Js.Value.{Value, undefined, null, bool, num, str, obj, opt_prop}

pub data Outcome {ℓ} (A : Type ℓ) : Type ℓ where
  done : A → Outcome A
  thrown : String → Outcome A
  exited : ℕ → Outcome A
  out_of_fuel : Outcome A

-- Script code over a world `W`.
abbrev pub Script : Type 0 → Type 0 → Type 0
Script W A = W → Outcome A × W

abbrev pub and_then : {W A B : Type 0} → Outcome A → (A → Script W B) → Script W B
and_then (done a) f w = f a w
and_then (thrown e) f w = (thrown e, w)
and_then (exited n) f w = (exited n, w)
and_then out_of_fuel f w = (out_of_fuel, w)

infixl 5 ◌>>=◌ ◌>>◌
abbrev pub ◌>>=◌ : {W A B : Type 0} → Script W A → (A → Script W B) → Script W B
◌>>=◌ m f w = and_then (m w).0 f (m w).1

abbrev pub ◌>>◌ : {W A B : Type 0} → Script W A → Script W B → Script W B
◌>>◌ m k = m >>= λ _. k

abbrev pub return : {W A : Type 0} → A → Script W A
return a w = (done a, w)

abbrev pub no_fuel : {W A : Type 0} → Script W A
no_fuel w = (out_of_fuel, w)

abbrev pub throw : {W A : Type 0} → String → Script W A
throw e w = (thrown e, w)

abbrev pub exit : {W A : Type 0} → ℕ → Script W A
exit n w = (exited n, w)

abbrev pub on_thrown : {W A : Type 0} → Outcome A → (String → Script W A) → Script W A
on_thrown (done a) h w = (done a, w)
on_thrown (thrown e) h w = h e w
on_thrown (exited n) h w = (exited n, w)
on_thrown out_of_fuel h w = (out_of_fuel, w)

-- `try { m } catch (e) { h(e.message) }`.
abbrev pub catch : {W A : Type 0} → Script W A → (String → Script W A) → Script W A
catch m h w = on_thrown (m w).0 h (m w).1

-- `v.k`: a TypeError where `v` is `undefined` or `null`.
abbrev pub prop : Value → String → Outcome Value
prop undefined k = thrown "Cannot read properties of undefined"
prop null k = thrown "Cannot read properties of null"
prop (bool b) k = done (opt_prop (bool b) k)
prop (num n) k = done (opt_prop (num n) k)
prop (str s) k = done (opt_prop (str s) k)
prop (obj fs) k = done (opt_prop (obj fs) k)

-- A computation that does not touch the world.
abbrev pub lift : {W A : Type 0} → Outcome A → Script W A
lift o w = (o, w)
