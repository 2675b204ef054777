-- ===== src/Healer/Domain.antt =====
-- domain.hpp. What is taken from a log line is a text of bytes; the names that the program fixes are
-- strings.
use job_queue_event_processi.Prelude.{String, Bool, List}
use job_queue_event_processi.Healer.Text.{Text}

pub data IncidentType : Type 0 where
  watcher_gap rate_limited_job circuit_open job_execution_failed : IncidentType
  redis_dispatch_anomaly unknown : IncidentType

pub data Severity : Type 0 where
  low medium high critical : Severity

-- Of the attributes the program sets `reason` only.
pub record Incident : Type 0 where
  pub type : IncidentType
  pub severity : Severity
  pub title : String
  pub job_id : Text
  pub job_type : Text
  pub evidence : Text
  pub reason : Text

pub record HealingPlan : Type 0 where
  pub strategy_name : String
  pub action : String
  pub dry_run : Bool
  pub steps : List String
  pub verification_checks : List String

-- `toString`.
unfoldable pub type_name : IncidentType → String
type_name watcher_gap = "WATCHER_GAP"
type_name rate_limited_job = "RATE_LIMITED_JOB"
type_name circuit_open = "CIRCUIT_OPEN"
type_name job_execution_failed = "JOB_EXECUTION_FAILED"
type_name redis_dispatch_anomaly = "REDIS_DISPATCH_ANOMALY"
type_name unknown = "UNKNOWN"

unfoldable pub severity_name : Severity → String
severity_name low = "LOW"
severity_name medium = "MEDIUM"
severity_name high = "HIGH"
severity_name critical = "CRITICAL"
