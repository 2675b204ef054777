-- ===== src/Tests/Server.antt =====
-- Two servers: one that answers every request after a millisecond, and one that cannot be reached.
use native.Mathlib.Nat.{mul-div-le, lt-mul-div-succ}
use job_queue_event_processi.Prelude.{
  ℕ, suc, get_or, ◌+◌, ◌*◌, ◌/◌, ◌≤◌, ◌<◌, ◌≡◌, ◌==◌, true, if◌then◌else◌, none, List, [], ◌∷◌, map,
  length, length-map, replicate, length-replicate, arith,
}
use job_queue_event_processi.Js.Value.{Value, num, str, obj, end, field}
use job_queue_event_processi.Js.Env.{
  Env, Pending, idle, asked, timer, is_live, any_live, Request, Fetched, answered, refused,
  Delivery, parsed,
}

-- The clock, and how many requests of each run are in flight.
pub record Machine : Type 0 where
  pub time : ℕ
  pub flights : ℕ → ℕ

abbrev later : ℕ → Machine → Machine
later ms w = record w { time = w.time + ms }

-- A component that is up, and a job that is COMPLETED, in one reply.
abbrev up : Value
up = obj (field "status" (str "UP") end)

abbrev body : Value
body = obj (
    field "id" (num 7) (
      field "status" (str "COMPLETED") (
        field "scheduleTime" (num 9)
          (field "components" (obj (field "db" up (field "redis" up end))) end))))

abbrev ok : Fetched
ok = answered (record { status = 200; text = "{}" })

abbrev delivery : Fetched → ℕ → Delivery
delivery f t = record { since = t; at = t + 1; fetched = f }

abbrev rounded : ℕ → ℕ → ℕ
rounded a b = (2000 * a + b) / (2 * b)

pub rounded_below : (a b : ℕ) → 0 < b → 2 * b * rounded a b ≤ 2000 * a + b
rounded_below a b h = mul-div-le (2000 * a + b) (2 * b)

pub rounded_above : (a b : ℕ) → 0 < b → 2000 * a ≤ 2 * b * rounded a b + b
rounded_above a b h =
    let above = lt-mul-div-succ (2000 * a + b) {b = 2 * b} (omega arith) in grind (arith, above)

abbrev started : (run : ℕ) → Machine → Machine
started run w = record w { flights = λ n. if n == run then w.flights n + 1 else w.flights n }

abbrev landed : (run ms : ℕ) → Machine → Machine
landed run ms w = record { time = w.time + ms; flights = λ n. if n == run then 0 else w.flights n }

pub one_more :
    (f : Fetched) (run : ℕ) (r : Request) (w : Machine)
    → (started run w).flights run ≡ w.flights run + 1
one_more f run r w = ground arith

pub none_left :
    (f : Fetched) (run ms : ℕ) (w : Machine)
    → length (replicate (w.flights run) (delivery f w.time)) + (landed run ms w).flights run
      ≡ w.flights run
none_left f run ms w = ground (arith, length-replicate (w.flights run) (delivery f w.time))

-- The first chain that waits goes on.
abbrev first_live : List Pending → ℕ
first_live [] = 0
first_live (p ∷ ps) = if is_live p then 0 else suc (first_live ps)

abbrev due_of : Pending → ℕ
due_of (timer due) = due
due_of idle = 0
due_of (asked r) = 0

abbrev woken : List Pending → Machine → Machine
woken ps w = later (1 + due_of (get_or ps (first_live ps) idle)) w

pub first_live_lem :
    (ps : List Pending) → any_live ps ≡ true → is_live (get_or ps (first_live ps) idle) ≡ true
first_live_lem [] h = h
first_live_lem (p ∷ ps) h = ground (arith, first_live_lem ps)

pub woken_due :
    (ps : List Pending) (w : Machine) (due : ℕ)
    → get_or ps (first_live ps) idle ≡ timer due
    → due ≤ (woken ps w).time
woken_due ps w due e = rw e (omega arith)

-- The server that gives every request the same fate.
abbrev server : Fetched → Env
server f = record {
  World = Machine;
  clock = λ w. w.time;
  parse = λ s. parsed body;
  template = λ s n. s;
  number = λ s. none;
  kolkata_in = λ n w. "10:00";
  local_in = λ n w. "10:00";
  is_date = λ v. true;
  pause = later;
  fetch = λ r w. (f, later 1 w);
  fetch_all = λ rs w. (map (λ r. delivery f w.time) rs, later 1 w);
  start = λ run r w. started run w;
  in_flight = λ run w. w.flights run;
  settle = λ run ms w. (replicate (w.flights run) (delivery f w.time), landed run ms w);
  next = λ ps w. ((first_live ps, f), woken ps w);
  per_second = λ a b. "1.0";
  percent = rounded;
  pause_lasts = λ ms w. omega arith;
  fetch_later = λ r w. omega arith;
  fetch_all_later = λ rs w. omega arith;
  length-fetch_all = λ rs w. length-map rs (λ r. delivery f w.time);
  start_later = λ run r w. omega arith;
  in_flight-start = one_more f;
  settle_lasts = λ run ms w. omega arith;
  in_flight-settle = none_left f;
  next_live = λ ps w h. first_live_lem ps h;
  next_later = λ ps w. omega arith;
  next_due = woken_due;
  percent_below = rounded_below;
  percent_above = rounded_above;
}

abbrev pub live : Env
live = server ok

abbrev pub dead : Env
dead = server (refused "ECONNREFUSED")

abbrev pub at_start : Machine
at_start = record { time = 100; flights = λ n. 0 }
