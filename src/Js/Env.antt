-- ===== src/Js/Env.antt =====
-- The outside of the scripts: the clock, timers, and the job queue's HTTP server, of which nothing
-- is assumed but that time passes and that every request is answered at most once.
use job_queue_event_processi.Prelude.{
  ℕ, ◌+◌, ◌*◌, ◌≤◌, ◌<◌, ◌≡◌, String, Bool, true, false, ◌||◌, get_or, [], ◌∷◌, List, length,
  Option,
}
use job_queue_event_processi.Js.Value.{Value}

pub data Endpoint : Type 0 where
  jobs stats health : Endpoint
  job cancel : Value → Endpoint

pub data Method : Type 0 where
  get post : Method

-- A `fetch` of an endpoint below `http://localhost:8080`, and the value sent as JSON.
pub record Request : Type 0 where
  pub method : Method
  pub endpoint : Endpoint
  pub body : Option Value

pub record Reply : Type 0 where
  pub status : ℕ
  pub text : String

-- A promise of `fetch` is fulfilled or rejected (with the message of the error).
pub data Fetched : Type 0 where
  answered : Reply → Fetched
  refused : String → Fetched

-- A settled request, with the times at which it was started and at which it settled.
pub record Delivery : Type 0 where
  pub since : ℕ
  pub at : ℕ
  pub fetched : Fetched

pub data Parsed : Type 0 where
  parsed : Value → Parsed
  malformed : String → Parsed

-- What a chain of promises waits for: nothing, an answer, or a timer that is due at some time.
pub data Pending : Type 0 where
  idle : Pending
  asked : Request → Pending
  timer : ℕ → Pending

abbrev pub is_live : Pending → Bool
is_live idle = false
is_live (asked r) = true
is_live (timer due) = true

abbrev pub any_live : List Pending → Bool
any_live [] = false
any_live (p ∷ ps) = is_live p || any_live ps

pub record Env : Type 1 where
  pub World : Type 0
  -- `Date.now()`.
  pub clock : World → ℕ
  -- `JSON.parse`, with the message of its SyntaxError.
  pub parse : String → Parsed
  -- The template `${s}${n}`.
  pub template : String → ℕ → String
  -- `Number` of a text, `none` for what is no natural number.
  pub number : String → Option ℕ
  -- The time of day `HH:MM` in Asia/Kolkata, some minutes from now.
  pub kolkata_in : (minutes : ℕ) → World → String
  -- The local time of day `HH:MM`, some minutes from now.
  pub local_in : (minutes : ℕ) → World → String
  -- `new Date(v).toISOString()` does not throw.
  pub is_date : Value → Bool
  -- `await sleep(ms)`.
  pub pause : ℕ → World → World
  -- `await fetch(...)`.
  pub fetch : Request → World → Fetched × World
  -- `await Promise.all(...)` of requests that are started together.
  pub fetch_all : List Request → World → List Delivery × World
  -- A request that is started and not awaited, under the number of a run; how many of a run have
  -- not settled; and `await sleep(ms)` with the requests of a run that settle in it.
  pub start : (run : ℕ) → Request → World → World
  pub in_flight : (run : ℕ) → World → ℕ
  pub settle : (run ms : ℕ) → World → List Delivery × World
  -- The event loop: which of some chains goes on next, with the answer where it is an answer, and
  -- the world in which it does. The requests of the chains are under way while they wait.
  pub next : List Pending → World → (ℕ × Fetched) × World
  -- `((a / b) * 1000).toFixed(1)`, and `((a / b) * 100).toFixed(1)` in tenths, for `b` not 0: a
  -- nearest tenth to the quotient.
  pub per_second : (a b : ℕ) → String
  pub percent : (a b : ℕ) → ℕ
  pub pause_lasts : (ms : ℕ) (w : World) → clock w + ms ≤ clock (pause ms w)
  pub fetch_later : (r : Request) (w : World) → clock w ≤ clock (fetch r w).1
  pub fetch_all_later : (rs : List Request) (w : World) → clock w ≤ clock (fetch_all rs w).1
  pub length-fetch_all : (rs : List Request) (w : World) → length (fetch_all rs w).0 ≡ length rs
  pub start_later : (run : ℕ) (r : Request) (w : World) → clock w ≤ clock (start run r w)
  pub in_flight-start :
      (run : ℕ) (r : Request) (w : World) → in_flight run (start run r w) ≡ in_flight run w + 1
  pub settle_lasts : (run ms : ℕ) (w : World) → clock w + ms ≤ clock (settle run ms w).1
  pub in_flight-settle :
      (run ms : ℕ) (w : World)
      → length (settle run ms w).0 + in_flight run (settle run ms w).1 ≡ in_flight run w
  pub next_live :
      (ps : List Pending) (w : World)
      → any_live ps ≡ true
      → is_live (get_or ps (next ps w).0.0 idle) ≡ true
  pub next_later : (ps : List Pending) (w : World) → clock w ≤ clock (next ps w).1
  pub next_due :
      (ps : List Pending) (w : World) (due : ℕ)
      → get_or ps (next ps w).0.0 idle ≡ timer due
      → due ≤ clock (next ps w).1
  pub percent_below : (a b : ℕ) → 0 < b → 2 * b * percent a b ≤ 2000 * a + b
  pub percent_above : (a b : ℕ) → 0 < b → 2000 * a ≤ 2 * b * percent a b + b
