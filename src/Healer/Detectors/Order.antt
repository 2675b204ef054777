-- ===== src/Healer/Detectors/Order.antt =====
-- Which incident the chain detects, and what it carries.
use job_queue_event_processi.Prelude.{
  ℕ, String, ◌≡◌, refl, inl, inr, Bool, true, false, not, ◌&&◌, ◌||◌, Bool-cases, if◌then◌else◌,
  Option, none, some, List, [], ◌∷◌, arith,
}
use job_queue_event_processi.Healer.Text.{
  Text, codes, is_digit, is_capital, is_space, contains, strip, past, or_text, capture,
}
use job_queue_event_processi.Healer.Text.Search.{all_of, run_of-all_of, capture_decides}
use job_queue_event_processi.Healer.Domain.{
  IncidentType, watcher_gap, rate_limited_job, circuit_open, job_execution_failed,
  redis_dispatch_anomaly, unknown, Severity, low, medium, high, critical, Incident,
}
use job_queue_event_processi.Healer.Detectors.{
  base_incident, job_id_of, type_of, spaced_digits, number_behind, numbered_here, numbered_job,
  is_anomaly, nothing_more, watcher_gap_detector, rate_limit_detector, circuit_open_detector,
  job_failure_detector, redis_dispatch_detector, default_chain,
}

-- The signals in the order of their priority.
abbrev pub is_limited : Text → Bool
is_limited line =
    contains line (codes "Rate limit hit") || contains line (codes "Rate limit exceeded")

abbrev pub signals : List ((Text → Bool) × IncidentType)
signals =
    ((λ line. contains line (codes "Watcher gap detected")), watcher_gap)
    ∷ (is_limited, rate_limited_job)
    ∷ ((λ line. contains line (codes "Circuit OPEN")), circuit_open)
    ∷ ((λ line. contains line (codes "Job failed jobId=")), job_execution_failed)
    ∷ (is_anomaly, redis_dispatch_anomaly)
    ∷ []

abbrev pub first_signal : List ((Text → Bool) × IncidentType) → Text → Option IncidentType
first_signal [] line = none
first_signal ((test, type) ∷ more) line = if test line then some type else first_signal more line

unfoldable pub severity_of : IncidentType → Severity
severity_of watcher_gap = high
severity_of rate_limited_job = medium
severity_of circuit_open = critical
severity_of job_execution_failed = high
severity_of redis_dispatch_anomaly = high
severity_of unknown = low

unfoldable pub title_of : IncidentType → String
title_of watcher_gap = "Watcher missed one or more scheduling windows"
title_of rate_limited_job = "Job processing is being throttled by the rate limiter"
title_of circuit_open = "Circuit breaker is open for a job type"
title_of job_execution_failed = "Job execution failed in the consumer"
title_of redis_dispatch_anomaly = "Dispatcher could not safely move a Redis job to Kafka"
title_of unknown = ""

-- What an incident of a type, detected in a line, carries.
pub record IsReport (type : IncidentType) (line : Text) (i : Incident) : Type 0 where
  pub kind : i.type ≡ type
  pub severity : i.severity ≡ severity_of type
  pub title : i.title ≡ title_of type
  pub evidence : i.evidence ≡ line
  pub digits : all_of is_digit i.job_id ≡ true
  pub capitals : all_of is_capital i.job_type ≡ true

abbrev pub Detected : Option IncidentType → Text → Option Incident → Type 0
Detected none line none = Unit {0}
Detected none line (some i) = ⊥
Detected (some type) line none = ⊥
Detected (some type) line (some i) = IsReport type line i

capture-all_of :
    (token : Text) (p : ℕ → Bool) (line : Text) → all_of p (capture token p line) ≡ true
capture-all_of token p line = elim (capture_decides token p line) [
  | inl (nothing, quiet) ↦ rw nothing refl
  | inr (found, m) ↦ m.group
]

or_text-all_of :
    (p : ℕ → Bool) (s t : Text)
    → all_of p s ≡ true
    → all_of p t ≡ true
    → all_of p (or_text s t) ≡ true
or_text-all_of p [] t h k = k
or_text-all_of p (c ∷ cs) t h k = h

spaced_digits-all_of : (s : Text) → all_of is_digit (spaced_digits s) ≡ true
spaced_digits-all_of [] = refl
spaced_digits-all_of (c ∷ cs) = elim (Bool-cases (is_space c)) [
  | inl blank ↦ rw blank (run_of-all_of is_digit (past is_space cs))
  | inr other ↦ rw other refl
]

number_behind-all_of : (o : Option Text) → all_of is_digit (number_behind o) ≡ true
number_behind-all_of none = refl
number_behind-all_of (some rest) = spaced_digits-all_of rest

numbered_job-all_of : (line : Text) → all_of is_digit (numbered_job line) ≡ true
unfolding numbered_job
numbered_job-all_of [] = refl
numbered_job-all_of (c ∷ cs) =
    let lower = numbered_here "job" (c ∷ cs) in
    let upper = numbered_here "Job" (c ∷ cs) in
    or_text-all_of is_digit (or_text lower upper) (numbered_job cs)
      (or_text-all_of is_digit lower upper (number_behind-all_of (strip (codes "job") (c ∷ cs)))
        (number_behind-all_of (strip (codes "Job") (c ∷ cs))))
      (numbered_job-all_of cs)

job_id_of-all_of : (line : Text) → all_of is_digit (job_id_of line) ≡ true
unfolding job_id_of
job_id_of-all_of = capture-all_of (codes "jobId=") is_digit

type_of-all_of : (line : Text) → all_of is_capital (type_of line) ≡ true
unfolding type_of
type_of-all_of = capture-all_of (codes "type=") is_capital

module _ (next : Text → Option Incident) (n : Option IncidentType) (line : Text)
    (h : Detected n line (next line)) where
  pick-Detected :
      (b : Bool) (type : IncidentType) (i : Incident)
      → IsReport type line i
      → Detected (if b then some type else n) line (if not b then next line else some i)
  pick-Detected true type i r = r
  pick-Detected false type i r = h

  watcher_gap-Detected :
      Detected
        (if contains line (codes "Watcher gap detected") then some watcher_gap else n)
        line
        (watcher_gap_detector next line)
  unfolding watcher_gap_detector base_incident severity_of title_of
  watcher_gap-Detected =
      pick-Detected (contains line (codes "Watcher gap detected")) watcher_gap _ (record {
        kind = refl;
        severity = refl;
        title = refl;
        evidence = refl;
        digits = refl;
        capitals = refl;
      })

  neither : (a b : Bool) → (not a && not b) ≡ not (a || b)
  neither a b = ground arith

  rate_limit-Detected :
      Detected
        (if is_limited line then some rate_limited_job else n)
        line
        (rate_limit_detector next line)
  unfolding rate_limit_detector base_incident severity_of title_of
  rate_limit-Detected =
      rw
        (
          rate_limit_detector,
          neither (contains line (codes "Rate limit hit"))
              (contains line (codes "Rate limit exceeded")),
        )
        (pick-Detected (is_limited line) rate_limited_job _ (record {
          kind = refl;
          severity = refl;
          title = refl;
          evidence = refl;
          digits = job_id_of-all_of line;
          capitals = type_of-all_of line;
        }))

  circuit_open-Detected :
      Detected
        (if contains line (codes "Circuit OPEN") then some circuit_open else n)
        line
        (circuit_open_detector next line)
  unfolding circuit_open_detector base_incident severity_of title_of
  circuit_open-Detected =
      pick-Detected (contains line (codes "Circuit OPEN")) circuit_open _ (record {
        kind = refl;
        severity = refl;
        title = refl;
        evidence = refl;
        digits = job_id_of-all_of line;
        capitals = type_of-all_of line;
      })

  job_failure-Detected :
      Detected
        (if contains line (codes "Job failed jobId=") then some job_execution_failed else n)
        line
        (job_failure_detector next line)
  unfolding job_failure_detector base_incident severity_of title_of
  job_failure-Detected =
      pick-Detected (contains line (codes "Job failed jobId=")) job_execution_failed _ (record {
        kind = refl;
        severity = refl;
        title = refl;
        evidence = refl;
        digits = job_id_of-all_of line;
        capitals = refl;
      })

  redis_dispatch-Detected :
      Detected
        (if is_anomaly line then some redis_dispatch_anomaly else n)
        line
        (redis_dispatch_detector next line)
  unfolding redis_dispatch_detector base_incident severity_of title_of
  redis_dispatch-Detected = pick-Detected (is_anomaly line) redis_dispatch_anomaly _ (record {
    kind = refl;
    severity = refl;
    title = refl;
    evidence = refl;
    digits =
        or_text-all_of is_digit (numbered_job line) (job_id_of line) (numbered_job-all_of line)
          (job_id_of-all_of line);
    capitals = refl;
  })

-- The chain detects exactly the first signal, in the order of priority, that a line shows, and
-- nothing in a line that shows none. The incident has the severity of its type and the line as its
-- evidence; its job id consists of digits, and its job type of capital letters.
pub default_chain_decides :
    (line : Text) → Detected (first_signal signals line) line (default_chain line)
unfolding default_chain nothing_more
default_chain_decides line = watcher_gap-Detected _ _ line (
    rate_limit-Detected _ _ line (
      circuit_open-Detected _ _ line
        (job_failure-Detected _ _ line (redis_dispatch-Detected nothing_more none line tt))))
