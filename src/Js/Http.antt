-- ===== src/Js/Http.antt =====
-- The calls that the scripts make of the server: `fetch`, `res.json()`, `res.text()`.
use job_queue_event_processi.Prelude.{
  ℕ, ◌≤◌, ◌≡◌, refl, String, Bool, true, false, if◌then◌else◌, none, some, List, [], ◌∷◌, arith,
}
use job_queue_event_processi.Js.Value.{Value, obj, Fields, end, field}
use job_queue_event_processi.Js.Outcome.{
  Outcome, done, thrown, exited, out_of_fuel, Script, ◌>>=◌, return, throw, lift, prop, catch,
  and_then, on_thrown,
}
use job_queue_event_processi.Js.Env.{
  Env, Endpoint, jobs, cancel, Request, get, post, Reply, Fetched, answered, refused, Parsed,
  parsed, malformed,
}

abbrev pub object : List (String × Value) → Value
object ps = obj (fields ps)
  where
    fields : List (String × Value) → Fields
    fields [] = end
    fields ((k, v) ∷ rest) = field k v (fields rest)

abbrev pub get_from : Endpoint → Request
get_from e = record { method = get; endpoint = e; body = none }

abbrev pub post_job : Value → Request
post_job v = record { method = post; endpoint = jobs; body = some v }

abbrev pub post_cancel : Value → Request
post_cancel id = record { method = post; endpoint = cancel id; body = none }

abbrev pub settled : Fetched → Outcome Reply
settled (answered r) = done r
settled (refused e) = thrown e

abbrev pub read : Parsed → Outcome Value
read (parsed v) = done v
read (malformed e) = thrown e

module _ (env : Env) where
  open env use {World, clock, parse, pause, fetch}

  abbrev pub wait : ℕ → Script World (Unit {0})
  wait ms w = (done tt, pause ms w)

  -- `await fetch(...)`, which throws where the promise is rejected.
  unfoldable pub fetch_reply : Request → Script World Reply
  fetch_reply r w = let got = fetch r w in (settled got.0, got.1)

  -- `await res.json()`.
  unfoldable pub json : Reply → Script World Value
  json r w = (read (parse r.text), w)

  -- `await (await fetch(...)).json()`.
  unfoldable pub fetch_json : Request → Script World Value
  fetch_json r = do res ← fetch_reply r; json res

  -- `v.k`.
  abbrev pub read_prop : Value → String → Script World Value
  read_prop v k = lift (prop v k)

-- An outcome that is a result or an exception.
abbrev pub IsAnswer {ℓ} : {A : Type ℓ} → Outcome A → Type 0
IsAnswer (done a) = Unit
IsAnswer (thrown e) = Unit
IsAnswer (exited n) = ⊥
IsAnswer out_of_fuel = ⊥

module _ (env : Env) where
  open env use {World, clock, fetch_later, pause_lasts}

  -- From every world the script comes to a result or an exception, not before it is started.
  pub record IsPlain {A : Type 0} (m : Script World A) : Type 0 where
    pub answer : (w : World) → IsAnswer (m w).0
    pub later : (w : World) → clock w ≤ clock (m w).1

  pub bind_later :
      {A B : Type 0} (m : Script World A) (f : A → Script World B)
      → ((w : World) → clock w ≤ clock (m w).1)
      → ((a : A) (w : World) → clock w ≤ clock (f a w).1)
      → (w : World) → clock w ≤ clock ((m >>= f) w).1
  bind_later {A} {B} m f h k w = go (m w).0 (m w).1 (h w)
    where
      go : (o : Outcome A) (w' : World) → clock w ≤ clock w' → clock w ≤ clock (and_then o f w').1
      go (done a) w' g = omega (arith, k a w')
      go (thrown e) w' g = g
      go (exited n) w' g = g
      go out_of_fuel w' g = g

  pub bind-IsPlain :
      {A B : Type 0} (m : Script World A) (f : A → Script World B)
      → IsPlain m
      → ((a : A) → IsPlain (f a))
      → IsPlain (m >>= f)
  bind-IsPlain {A} {B} m f h k = record {
    answer = λ w. (go (m w).0 (m w).1 (h.answer w)).0;
    later = λ w. omega (arith, (go (m w).0 (m w).1 (h.answer w)).1, h.later w);
  }
    where
      go :
          (o : Outcome A) (w' : World)
          → IsAnswer o
          → IsAnswer (and_then o f w').0 × (clock w' ≤ clock (and_then o f w').1)
      go (done a) w' g = ((k a).answer w', (k a).later w')
      go (thrown e) w' g = (tt, omega arith)
      go (exited n) w' g = absurd g
      go out_of_fuel w' g = absurd g

  pub return-IsPlain : {A : Type 0} (a : A) → IsPlain (return a)
  return-IsPlain a = record { answer = λ w. tt; later = λ w. omega arith }

  pub throw-IsPlain : {A : Type 0} (e : String) → IsPlain (throw {A = A} e)
  throw-IsPlain e = record { answer = λ w. tt; later = λ w. omega arith }

  pub if-IsPlain :
      {A : Type 0} (b : Bool) (m n : Script World A)
      → IsPlain m
      → IsPlain n
      → IsPlain (if b then m else n)
  if-IsPlain true m n h k = h
  if-IsPlain false m n h k = k

  pub prop-IsPlain : (v : Value) (k : String) → IsPlain (lift (prop v k))
  prop-IsPlain v k = record { answer = λ w. go v; later = λ w. omega arith }
    where
      go : (u : Value) → IsAnswer (prop u k)
      go u = ground arith

  pub wait-IsPlain : (ms : ℕ) → IsPlain (wait env ms)
  wait-IsPlain ms = record { answer = λ w. tt; later = λ w. omega (arith, pause_lasts ms w) }

  pub fetch_reply-IsPlain : (r : Request) → IsPlain (fetch_reply env r)
  unfolding fetch_reply
  fetch_reply-IsPlain r = record { answer = λ w. go (env.fetch r w).0; later = fetch_later r }
    where
      go : (f : Fetched) → IsAnswer (settled f)
      go (answered x) = tt
      go (refused e) = tt

  pub json-IsPlain : (r : Reply) → IsPlain (json env r)
  unfolding json
  json-IsPlain r = record { answer = λ w. go (env.parse r.text); later = λ w. omega arith }
    where
      go : (p : Parsed) → IsAnswer (read p)
      go (parsed v) = tt
      go (malformed e) = tt

  pub fetch_json-IsPlain : (r : Request) → IsPlain (fetch_json env r)
  unfolding fetch_json
  fetch_json-IsPlain r =
      bind-IsPlain (fetch_reply env r) (json env) (fetch_reply-IsPlain r) json-IsPlain

  -- A plain script behind a `catch` that returns a value is done.
  pub catch-done :
      {A : Type 0} (m : Script World A) (b : A) (w : World)
      → IsPlain m
      → let r = catch m (λ e. return b) w in (a : A) × (r.0 ≡ done a) × (clock w ≤ clock r.1)
  catch-done {A} m b w h = go (m w).0 (m w).1 (h.answer w) (h.later w)
    where
      go :
          (o : Outcome A) (w' : World)
          → IsAnswer o
          → clock w ≤ clock w'
          → let r = on_thrown o (λ e. return b) w' in
            (a : A) × (r.0 ≡ done a) × (clock w ≤ clock r.1)
      go (done a) w' g t = (a, refl, t)
      go (thrown e) w' g t = (b, refl, t)
      go (exited n) w' g t = absurd g
      go out_of_fuel w' g t = absurd g

  pub settled-IsPlain : (f : Fetched) → IsPlain (lift (settled f))
  settled-IsPlain (answered r) = return-IsPlain r
  settled-IsPlain (refused e) = throw-IsPlain e

  pub read-IsPlain : (p : Parsed) → IsPlain (lift (read p))
  read-IsPlain (parsed v) = return-IsPlain v
  read-IsPlain (malformed e) = throw-IsPlain e

-- The rules for the scripts that come to a result or an exception.
pub ruleset plain = (
  bind-IsPlain, return-IsPlain, throw-IsPlain, if-IsPlain, prop-IsPlain, wait-IsPlain,
  fetch_reply-IsPlain, json-IsPlain, fetch_json-IsPlain,
)
