-- ===== src/Healer/Detectors.antt =====
-- detectors.hpp and detectors.cpp: the chain of detectors, each with the one that it delegates to.
pub mod Order
pub mod Lines
use job_queue_event_processi.Prelude.{
  ℕ, Bool, true, false, not, ◌&&◌, ◌||◌, if◌then◌else◌, String, Option, none, some, List, [], ◌∷◌,
}
use job_queue_event_processi.Healer.Text.{
  Text, codes, is_digit, is_capital, no_comma, is_space, strip, contains, run_of, past, or_text,
  capture,
}
use job_queue_event_processi.Healer.Domain.{
  IncidentType, watcher_gap, rate_limited_job, circuit_open, job_execution_failed,
  redis_dispatch_anomaly, Severity, medium, high, critical, Incident,
}

abbrev pub Detector : Type 0
Detector = Text → Option Incident

unfoldable pub base_incident : IncidentType → Severity → String → Text → Incident
base_incident type severity title line = record {
  type = type;
  severity = severity;
  title = title;
  job_id = [];
  job_type = [];
  evidence = line;
  reason = [];
}

-- The expressions `jobId=(\d+)`, `type=([A-Z]+)` and `reason=([^,]+)`.
unfoldable pub job_id_of : Text → Text
job_id_of = capture (codes "jobId=") is_digit

unfoldable pub type_of : Text → Text
type_of = capture (codes "type=") is_capital

unfoldable pub reason_of : Text → Text
reason_of = capture (codes "reason=") no_comma

-- `(\d+)` behind `\s+`.
abbrev pub spaced_digits : Text → Text
spaced_digits [] = []
spaced_digits (c ∷ cs) = if is_space c then run_of is_digit (past is_space cs) else []

abbrev pub number_behind : Option Text → Text
number_behind none = []
number_behind (some rest) = spaced_digits rest

abbrev pub numbered_here : (word : String) → Text → Text
numbered_here word line = number_behind (strip (codes word) line)

-- `captureFirst` of `job\s+(\d+)|Job\s+(\d+)`.
unfoldable pub numbered_job : Text → Text
numbered_job [] = []
numbered_job (c ∷ cs) =
    or_text (or_text (numbered_here "job" (c ∷ cs)) (numbered_here "Job" (c ∷ cs)))
      (numbered_job cs)

unfoldable pub nothing_more : Detector
nothing_more line = none

unfoldable pub watcher_gap_detector : Detector → Detector
watcher_gap_detector next line =
    if not (contains line (codes "Watcher gap detected"))
    then next line
    else some (base_incident watcher_gap high "Watcher missed one or more scheduling windows" line)

unfoldable pub rate_limit_detector : Detector → Detector
rate_limit_detector next line =
    if not (contains line (codes "Rate limit hit"))
      && not (contains line (codes "Rate limit exceeded"))
    then next line
    else some
        (record (base_incident rate_limited_job medium
          "Job processing is being throttled by the rate limiter" line) {
            job_id = job_id_of line;
            job_type = type_of line;
          })

unfoldable pub circuit_open_detector : Detector → Detector
circuit_open_detector next line =
    if not (contains line (codes "Circuit OPEN"))
    then next line
    else some
        (record (base_incident circuit_open critical "Circuit breaker is open for a job type"
          line) { job_id = job_id_of line; job_type = type_of line })

unfoldable pub job_failure_detector : Detector → Detector
job_failure_detector next line =
    if not (contains line (codes "Job failed jobId="))
    then next line
    else some
        (record (base_incident job_execution_failed high "Job execution failed in the consumer"
          line) { job_id = job_id_of line; reason = reason_of line })

-- `missing || invalidState || dispatchError`.
unfoldable pub is_anomaly : Text → Bool
is_anomaly line =
    contains line (codes "not found in DB, removing from Redis")
    || contains line (codes "Skipping job") && contains line (codes "invalid state")
    || contains line (codes "Error dispatching job")

unfoldable pub redis_dispatch_detector : Detector → Detector
redis_dispatch_detector next line =
    if not (is_anomaly line)
    then next line
    else some
        (record (base_incident redis_dispatch_anomaly high
          "Dispatcher could not safely move a Redis job to Kafka" line) {
            job_id = or_text (numbered_job line) (job_id_of line);
          })

-- `createDefaultChain`.
unfoldable pub default_chain : Detector
default_chain = watcher_gap_detector (
    rate_limit_detector
      (circuit_open_detector (job_failure_detector (redis_dispatch_detector nothing_more))))
