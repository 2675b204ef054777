-- ===== src/Queue/Consumer.antt =====
-- service/KafkaConsumerService.java: `consume`, with the circuit breaker, `resetCircuit` and
-- `getCircuitStates`.
pub mod Retry
pub mod Breaker
pub mod Moves
pub mod Frame
use job_queue_event_processi.Prelude.{
  ℕ, suc, ◌+◌, ◌-◌, ◌*◌, ◌^◌, min, ltb, leb, String, Bool, true, false, not, ◌&&◌, if◌then◌else◌,
  Option, none, some, List, [], ◌∷◌,
}
use job_queue_event_processi.Prelude.Dict.{Dict, lookup_or, insert}
use job_queue_event_processi.Queue.Job.{
  JobStatus, queued, processing, completed, failed, retry, cancelled, is, Job,
}
use job_queue_event_processi.Queue.Repository.{find_by_id, save}
use job_queue_event_processi.Queue.Limiter.{allow}
use job_queue_event_processi.Queue.State.{
  Message, id_text, garbage, Incident, Backend, acknowledge, publish, is_cancelled,
  clear_cancellation,
}
use job_queue_event_processi.Queue.Executor.{Outside, execute_job}

abbrev pub failure_threshold : ℕ
failure_threshold = 5

abbrev pub circuit_timeout : ℕ
circuit_timeout = 30000

abbrev pub max_retry : ℕ
max_retry = 5

-- The readings of the clock in one call: `now`, that of the rate limiter, and that of the retry
-- time of a rate-limited job.
pub record Times : Type 0 where
  pub now : ℕ
  pub at_limiter : ℕ
  pub at_deferral : ℕ

abbrev pub save_job : Job → Backend → Backend
save_job j s = record s { jobs = save j s.jobs }

abbrev pub incident : (type severity title : String) → Job → String → List (String × ℕ) → Incident
incident type severity title job evidence attributes = record {
  type = type;
  severity = severity;
  title = title;
  job_id = some job.id;
  job_type = some job.type;
  evidence = evidence;
  attributes = attributes;
}

abbrev pub failures_of : String → Backend → ℕ
failures_of type s = lookup_or 0 type s.failure_count

abbrev pub is_circuit_open : String → Backend → Bool
is_circuit_open type s = lookup_or false type s.circuit_open

abbrev pub last_failure_of : String → Backend → ℕ
last_failure_of type s = lookup_or 0 type s.last_failure

abbrev pub set_circuit_open : String → Bool → Backend → Backend
set_circuit_open type b s = record s { circuit_open = insert type b s.circuit_open }

-- `Math.min((long) Math.pow(2, retryCount) * 1000, 20000)`.
unfoldable pub backoff : ℕ → ℕ
backoff retry_count = min (2 ^ retry_count * 1000) 20000

-- `rateLimiter.allow(job.getType(), 5)`.
unfoldable pub allow_type : (now : ℕ) → String → Backend → Bool × Backend
allow_type now type s =
    let a = allow 1000 5 now (lookup_or [] type s.rates) in
    (a.0, record s { rates = insert type a.1 s.rates })

-- The breaker's part of the `catch`: the failure is counted, and from the fifth on it opens.
unfoldable pub record_failure : (now : ℕ) → Job → String → Backend → Backend
record_failure now job e s =
    let failures = failures_of job.type s + 1 in
    let counted = record s {
      failure_count = insert job.type failures s.failure_count;
      last_failure = insert job.type now s.last_failure;
    } in
    if leb failure_threshold failures
    then publish
        (incident "CIRCUIT_OPEN" "CRITICAL" "Circuit breaker triggered" job e
          (("consecutiveFailures", failures) ∷ []))
        (set_circuit_open job.type true counted)
    else counted

-- The rest of the `catch`: the job fails for good, or is put off for its backoff.
unfoldable pub retry_or_fail : (now : ℕ) → Job → String → Backend → Backend
retry_or_fail now job e s =
    if leb max_retry job.retry_count
    then publish
        (incident "JOB_EXECUTION_FAILED" "HIGH" "Job exhausted retries" job e
          (("retryCount", job.retry_count) ∷ []))
        (save_job (record job { status = failed }) s)
    else save_job
        (record job {
          retry_count = job.retry_count + 1;
          next_retry_time = some (now + backoff (job.retry_count + 1));
          status = retry;
        })
        s

-- The `try` and its `catch`, for a job that passed the guards.
unfoldable pub attempt : Outside → (now : ℕ) → Job → Backend → Backend
attempt out now job s =
    if not (is job.status queued)
    then s
    else let started = record job { status = processing } in
      let running = record (save_job started s) { executions = job.id ∷ s.executions } in
      elim (execute_job out started) [
        | none ↦ record (save_job (record job { status = completed }) running) {
          failure_count = insert job.type 0 s.failure_count;
        }
        | some e ↦ retry_or_fail now started e (record_failure now job e running)
      ]

-- Behind the rate limiter: an open circuit puts the job off until its timeout has passed.
unfoldable pub behind_limiter : Outside → (now : ℕ) → Job → Backend → Backend
behind_limiter out now job s =
    if is_circuit_open job.type s
    then (if ltb (now - last_failure_of job.type s) circuit_timeout
        then save_job (record job { status = retry; next_retry_time = some (now + 5000) })
            (publish
              (incident "CIRCUIT_OPEN" "HIGH" "Circuit breaker open" job "Circuit open, job delayed"
                (("timeoutMs", circuit_timeout) ∷ []))
              s)
        else attempt out now job (set_circuit_open job.type false s))
    else attempt out now job s

unfoldable pub consume_job : Outside → Times → Job → Backend → Backend
consume_job out t job s =
    if is_cancelled t.now job.id s
    then clear_cancellation job.id (save_job (record job { status = cancelled }) s)
    else let a = allow_type t.at_limiter job.type s in
      if a.0
      then behind_limiter out t.now job a.1
      else save_job (record job { status = retry; next_retry_time = some (t.at_deferral + 2000) })
          (publish
            (incident "RATE_LIMITED_JOB" "MEDIUM" "Rate limit exceeded" job
              "Rate limit hit, job deferred to retry" (("retryDelayMs", 2000) ∷ []))
            a.1)

-- Each path acknowledges the message once.
unfoldable pub consume : Outside → Times → Message → Backend → Backend
consume out t (garbage m) s = acknowledge s
consume out t (id_text n) s = elim (find_by_id n s.jobs) [
  | none ↦ acknowledge s
  | some job ↦ acknowledge (consume_job out t job s)
]

unfoldable pub reset_circuit : String → Backend → Backend
reset_circuit type s = record s {
  failure_count = insert type 0 s.failure_count;
  circuit_open = insert type false s.circuit_open;
  last_failure = insert type 0 s.last_failure;
}

-- What `getCircuitStates` tells of a type.
pub record CircuitState : Type 0 where
  pub is_open : Bool
  pub failures : ℕ
  pub last_failure_time : ℕ

-- The types of the map of failures, each with its state.
unfoldable pub circuit_states_of : Dict ℕ → Backend → Dict CircuitState
circuit_states_of [] s = []
circuit_states_of ((type, n) ∷ m) s =
    (
      type,
      record {
        is_open = is_circuit_open type s;
        failures = failures_of type s;
        last_failure_time = last_failure_of type s;
      },
    )
    ∷ circuit_states_of m s

unfoldable pub get_circuit_states : Backend → Dict CircuitState
get_circuit_states s = circuit_states_of s.failure_count s
