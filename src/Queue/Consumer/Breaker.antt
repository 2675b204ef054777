-- ===== src/Queue/Consumer/Breaker.antt =====
-- The circuit breaker.
use text.Mathlib.TextPositions.{eq_refl}
use job_queue_event_processi.Prelude.{
  ℕ, suc, ◌+◌, ◌<◌, ◌≤◌, ◌≡◌, ◌∙◌, ap, subst, leb, str_eq, if◌then◌else◌, String, true, false, ◌&&◌,
  none, some, ◌∷◌, arith,
}
use job_queue_event_processi.Prelude.Dict.{lookup_or-insert}
use job_queue_event_processi.Queue.Job.{queued, processing, is, Job}
use job_queue_event_processi.Queue.State.{Backend, publish}
use job_queue_event_processi.Queue.Executor.{Outside, execute_job}
use job_queue_event_processi.Queue.Consumer.{
  record_failure, retry_or_fail, attempt, circuit_timeout, save_job, failures_of, is_circuit_open,
  last_failure_of,
}
use job_queue_event_processi.Queue.Consumer.Frame.{IsBlocked}

-- The entries of a type after a failure of a job: its own type counts one failure more, which is
-- the last one, and opens from the fifth failure on; no other type is affected.
pub record_failure-breaker :
    (now : ℕ) (job : Job) (e : String) (s : Backend) (type : String)
    → let s' = record_failure now job e s in
      let own = str_eq job.type type in
      (failures_of type s' ≡ (if own then failures_of job.type s + 1 else failures_of type s))
      × (last_failure_of type s' ≡ (if own then now else last_failure_of type s))
      × (is_circuit_open type s'
          ≡ (if own && leb 5 (failures_of job.type s + 1) then true else is_circuit_open type s))
unfolding record_failure publish
record_failure-breaker now job e s type = (
  ground (arith, lookup_or-insert 0 job.type type (failures_of job.type s + 1) s.failure_count),
  ground (arith, lookup_or-insert 0 job.type type now s.last_failure),
  ground (arith, lookup_or-insert false job.type type true s.circuit_open),
)

retry_or_fail-breaker :
    (now : ℕ) (job : Job) (e : String) (s : Backend)
    → ((retry_or_fail now job e s).failure_count ≡ s.failure_count)
      × ((retry_or_fail now job e s).circuit_open ≡ s.circuit_open)
      × ((retry_or_fail now job e s).last_failure ≡ s.last_failure)
unfolding retry_or_fail publish
retry_or_fail-breaker now job e s = ground arith

-- The execution of a job throws at its start.
abbrev pub Throws : Outside → Job → Type 0
Throws out job = (e : String) × (execute_job out (record job { status = processing }) ≡ some e)

-- What a failed attempt leaves in the breaker for its own type.
record Counted (now : ℕ) (type : String) (s s' : Backend) : Type 0 where
  count : failures_of type s' ≡ failures_of type s + 1
  last : last_failure_of type s' ≡ now
  opens : 5 ≤ failures_of type s + 1 → is_circuit_open type s' ≡ true

attempt-Counted :
    (out : Outside) (now : ℕ) (job : Job) (s : Backend)
    → job.status ≡ queued
    → Throws out job
    → Counted now job.type s (attempt out now job s)
unfolding attempt
attempt-Counted out now job s q (e, threw) =
    let started = record job { status = processing } in
    let running = record (save_job started s) { executions = job.id ∷ s.executions } in
    let rest = retry_or_fail-breaker now started e (record_failure now job e running) in
    let counted = record_failure-breaker now job e running job.type in
    let own = eq_refl job.type in
    let ready : is job.status queued ≡ true = ground arith in
    rw (ready, threw)
      (record {
        count = ground (arith, rest.0, counted.0, own);
        last = ground (arith, rest.2, counted.1, own);
        opens = λ h. ground (arith, rest.1, counted.2, own);
      })

-- `n` failed attempts of jobs of one type in a row, and the time of the last one.
pub data FailsInRow (out : Outside) (type : String) (s : Backend) : ℕ → ℕ → Backend → Type 0 where
  none_yet : (now : ℕ) → FailsInRow out type s 0 now s
  fails :
      {n before : ℕ} {s' : Backend} (now : ℕ) (job : Job)
      → FailsInRow out type s n before s'
      → job.type ≡ type
      → job.status ≡ queued
      → Throws out job
      → FailsInRow out type s (suc n) now (attempt out now job s')

-- After `n` failed attempts of one type in a row the failure count has grown by `n`, and from the
-- fifth on the circuit of the type is open, with the time of the last attempt as its last failure.
FailsInRow-count :
    (out : Outside) (type : String) (s : Backend) {n now : ℕ} {s' : Backend}
    → FailsInRow out type s n now s'
    → (failures_of type s' ≡ failures_of type s + n)
      × (5 ≤ n → (is_circuit_open type s' ≡ true) × (last_failure_of type s' ≡ now))
FailsInRow-count out type s (none_yet now) = (omega arith, λ h. absurd (omega arith))
FailsInRow-count out type s (fails {n} {s'} now job row same q throws) =
    let so_far = FailsInRow-count out type s row in
    let counted =
      subst (λ ty. Counted now ty s' (attempt out now job s')) same
        (attempt-Counted out now job s' q throws) in
    (
      omega (arith, counted.count, so_far.0),
      λ h. (counted.opens (omega (arith, so_far.0)), counted.last),
    )

-- From the fifth failed attempt in a row on, the circuit of the type blocks for 30 s.
pub five_failures_block :
    (out : Outside) (type : String) (s : Backend) (n last at : ℕ) (s' : Backend)
    → FailsInRow out type s n last s'
    → 5 ≤ n
    → at < last + circuit_timeout
    → IsBlocked at type s'
five_failures_block out type s n last at s' row h soon =
    let (is_open, time) = (FailsInRow-count out type s row).1 h in
    record { is_open = is_open; recent = rw time (omega arith) }

-- A completed attempt sets the failure count of its type to 0, so that the next failure is the
-- first one again.
pub completed_resets :
    (out : Outside) (now : ℕ) (job : Job) (s : Backend)
    → job.status ≡ queued
    → execute_job out (record job { status = processing }) ≡ none
    → failures_of job.type (attempt out now job s) ≡ 0
unfolding attempt
completed_resets out now job s q ok =
    let ready : is job.status queued ≡ true = ground arith in
    rw (ready, ok)
      (lookup_or-insert 0 job.type job.type 0 s.failure_count
        ∙ ap (λ b. if b then 0 else failures_of job.type s) (eq_refl job.type))
