-- ===== src/Queue/Consumer/Frame.antt =====
-- The acknowledgement and the executions of one message.
use job_queue_event_processi.Prelude.{
  ℕ, ◌+◌, ◌-◌, ◌<◌, ◌≡◌, ◌∙◌, ap, ◌⊎◌, inl, inr, refl, ltb, String, true, false, some, [], ◌∷◌,
  arith, Bool-cases, Option-cases,
}
use job_queue_event_processi.Queue.Job.{queued, processing, retry, cancelled, is, is-eq, Job}
use job_queue_event_processi.Queue.Repository.{find_by_id}
use job_queue_event_processi.Queue.State.{
  Message, id_text, garbage, Incident, Backend, acknowledge, publish, is_cancelled,
  clear_cancellation,
}
use job_queue_event_processi.Queue.Executor.{Outside, execute_job}
use job_queue_event_processi.Queue.Consumer.{
  Times, record_failure, retry_or_fail, attempt, behind_limiter, consume_job, consume, allow_type,
  circuit_timeout, incident, is_circuit_open, last_failure_of, set_circuit_open, save_job,
}

-- The two counters of a state that the parts of `consume` are compared by.
abbrev Kept : Backend → Backend → Type 0
Kept s s' = (s'.acknowledged ≡ s.acknowledged) × (s'.executions ≡ s.executions)

publish-Kept : (i : Incident) (s : Backend) → Kept s (publish i s)
unfolding publish
publish-Kept i s = ground arith

record_failure-Kept :
    (now : ℕ) (job : Job) (e : String) (s : Backend) → Kept s (record_failure now job e s)
unfolding record_failure publish
record_failure-Kept now job e s = ground arith

retry_or_fail-Kept :
    (now : ℕ) (job : Job) (e : String) (s : Backend) → Kept s (retry_or_fail now job e s)
unfolding retry_or_fail publish
retry_or_fail-Kept now job e s = ground arith

-- What an attempt does to the counters: nothing, or one execution of a QUEUED job.
abbrev Attempted : Job → Backend → Backend → Type 0
Attempted job s s' =
    (s'.acknowledged ≡ s.acknowledged)
    × ((s'.executions ≡ s.executions)
        ⊎ ((job.status ≡ queued) × (s'.executions ≡ job.id ∷ s.executions)))

attempt-Attempted :
    (out : Outside) (now : ℕ) (job : Job) (s : Backend) → Attempted job s (attempt out now job s)
unfolding attempt
attempt-Attempted out now job s = elim (Bool-cases (is job.status queued)) [
  | inr other ↦ rw other (refl, inl refl)
  | inl ready ↦
      let started = record job { status = processing } in
      let is_queued = is-eq job.status queued ready in
      rw ready (elim (Option-cases (execute_job out started)) [
        | inl ok ↦ rw ok (refl, inr (is_queued, refl))
        | inr (e, threw) ↦ rw threw (
            let s' = record (save_job started s) { executions = job.id ∷ s.executions } in
            let counted = record_failure-Kept now job e s' in
            let put_off = retry_or_fail-Kept now started e (record_failure now job e s') in
            (put_off.0 ∙ counted.0, inr (is_queued, put_off.1 ∙ counted.1)))
      ])
]

-- The circuit of a type blocks at `now`: it is open, and its last failure is less than 30 s old.
pub record IsBlocked (now : ℕ) (type : String) (s : Backend) : Type 0 where
  pub is_open : is_circuit_open type s ≡ true
  pub recent : now - last_failure_of type s < circuit_timeout

abbrev open_incident : Job → Incident
open_incident job =
    incident "CIRCUIT_OPEN" "HIGH" "Circuit breaker open" job "Circuit open, job delayed"
      (("timeoutMs", circuit_timeout) ∷ [])

abbrev pub over_incident : Job → Incident
over_incident job =
    incident "RATE_LIMITED_JOB" "MEDIUM" "Rate limit exceeded" job
      "Rate limit hit, job deferred to retry" (("retryDelayMs", 2000) ∷ [])

-- Behind the limiter an execution happens for a QUEUED job only, and never in a blocked circuit.
abbrev Limited : (now : ℕ) → Job → Backend → Backend → Type 0
Limited now job s s' =
    (s'.acknowledged ≡ s.acknowledged)
    × ((s'.executions ≡ s.executions)
        ⊎ ((job.status ≡ queued)
            × ¬ IsBlocked now job.type s
            × (s'.executions ≡ job.id ∷ s.executions)))

Limited-of_Attempted :
    (now : ℕ) (job : Job) (s s₀ s' : Backend)
    → Attempted job s₀ s'
    → (s₀.acknowledged ≡ s.acknowledged) × (s₀.executions ≡ s.executions)
    → ¬ IsBlocked now job.type s
    → Limited now job s s'
Limited-of_Attempted now job s s₀ s' (k, inl none_tried) same free =
    (k ∙ same.0, inl (none_tried ∙ same.1))
Limited-of_Attempted now job s s₀ s' (k, inr (q, e)) same free =
    (k ∙ same.0, inr (q, free, e ∙ ap (◌∷◌ job.id) same.1))

behind_limiter-Limited :
    (out : Outside) (now : ℕ) (job : Job) (s : Backend)
    → Limited now job s (behind_limiter out now job s)
unfolding behind_limiter
behind_limiter-Limited out now job s = elim (Bool-cases (is_circuit_open job.type s)) [
  | inr shut ↦ rw shut (
      Limited-of_Attempted now job s s (attempt out now job s) (attempt-Attempted out now job s)
        (refl, refl) (λ b. cc (b.is_open)))
  | inl open_circuit ↦
      rw open_circuit (elim (Bool-cases (ltb (now - last_failure_of job.type s) circuit_timeout)) [
        | inl fresh ↦ let told = publish-Kept (open_incident job) s in rw fresh (told.0, inl told.1)
        | inr stale ↦
            let closed = set_circuit_open job.type false s in
            rw stale (
              Limited-of_Attempted now job s closed (attempt out now job closed)
                (attempt-Attempted out now job closed) (refl, refl) (λ b. ground (arith, b.recent)))
      ])
]

-- What one message for a job does: it is acknowledged once, and at most one execution is tried,
-- of a QUEUED job that is not cancelled, that the rate limiter lets through and whose circuit
-- does not block.
abbrev pub Consumed : Times → Job → Backend → Backend → Type 0
Consumed t job s s' =
    (s'.acknowledged ≡ s.acknowledged + 1)
    × ((s'.executions ≡ s.executions)
        ⊎ ((job.status ≡ queued)
            × (is_cancelled t.now job.id s ≡ false)
            × ((allow_type t.at_limiter job.type s).0 ≡ true)
            × ¬ IsBlocked t.now job.type s
            × (s'.executions ≡ job.id ∷ s.executions)))

Consumed-of_Limited :
    (t : Times) (job : Job) (s s₀ s' : Backend)
    → Limited t.now job s₀ s'
    → (s₀.acknowledged ≡ s.acknowledged) × (s₀.executions ≡ s.executions)
    → (IsBlocked t.now job.type s → IsBlocked t.now job.type s₀)
    → is_cancelled t.now job.id s ≡ false
    → (allow_type t.at_limiter job.type s).0 ≡ true
    → Consumed t job s (acknowledge s')
Consumed-of_Limited t job s s₀ s' (k, inl none_tried) same blocks free allowed =
    (ap (λ n. n + 1) (k ∙ same.0), inl (none_tried ∙ same.1))
Consumed-of_Limited t job s s₀ s' (k, inr (q, open_way, e)) same blocks free allowed = (
  ap (λ n. n + 1) (k ∙ same.0),
  inr (q, free, allowed, (λ b. open_way (blocks b)), e ∙ ap (◌∷◌ job.id) same.1),
)

allow_type-Kept : (now : ℕ) (type : String) (s : Backend) → Kept s (allow_type now type s).1
unfolding allow_type
allow_type-Kept now type s = (refl, refl)

allow_type-IsBlocked :
    (now at : ℕ) (type other : String) (s : Backend)
    → IsBlocked now type s
    → IsBlocked now type (allow_type at other s).1
unfolding allow_type
allow_type-IsBlocked now at type other s b = record { is_open = b.is_open; recent = b.recent }

module _ (out : Outside) (t : Times) (job : Job) (s : Backend)
    (free : is_cancelled t.now job.id s ≡ false) where
  pub consume_job-allowed :
      (allow_type t.at_limiter job.type s).0 ≡ true
      → consume_job out t job s
        ≡ behind_limiter out t.now job (allow_type t.at_limiter job.type s).1
  unfolding consume_job
  consume_job-allowed allowed = rw (free, allowed)

  pub consume_job-over :
      (allow_type t.at_limiter job.type s).0 ≡ false
      → consume_job out t job s
        ≡ save_job
            (record job { status = retry; next_retry_time = some (t.at_deferral + 2000) })
            (publish (over_incident job) (allow_type t.at_limiter job.type s).1)
  unfolding consume_job
  consume_job-over over = rw (free, over)

pub consume_job-cancelled :
    (out : Outside) (t : Times) (job : Job) (s : Backend)
    → is_cancelled t.now job.id s ≡ true
    → consume_job out t job s
      ≡ clear_cancellation job.id (save_job (record job { status = cancelled }) s)
unfolding consume_job
consume_job-cancelled out t job s flagged = rw flagged

consume_job-Consumed :
    (out : Outside) (t : Times) (job : Job) (s : Backend)
    → Consumed t job s (acknowledge (consume_job out t job s))
consume_job-Consumed out t job s = elim (Bool-cases (is_cancelled t.now job.id s)) [
  | inl flagged ↦
      rw (consume_job-cancelled out t job s flagged) (unfold clear_cancellation in (refl, inl refl))
  | inr free ↦
      let (allowed?, s₀) = allow_type t.at_limiter job.type s in
      let kept = allow_type-Kept t.at_limiter job.type s in
      elim (Bool-cases (allow_type t.at_limiter job.type s).0) [
        | inl allowed ↦ rw (consume_job-allowed out t job s free allowed) (
            Consumed-of_Limited t job s s₀ (behind_limiter out t.now job s₀)
              (behind_limiter-Limited out t.now job s₀) kept
              (allow_type-IsBlocked t.now t.at_limiter job.type job.type s) free allowed)
        | inr over ↦
            let told = publish-Kept (over_incident job) s₀ in
            rw (consume_job-over out t job s free over)
              (ap (λ n. n + 1) (told.0 ∙ kept.0), inl (told.1 ∙ kept.1))
      ]
]

-- Consuming the message of a job in the table acknowledges it once and tries at most one
-- execution, and that only of a QUEUED job that is not cancelled, that the rate limiter lets
-- through, and whose circuit is not open with its last failure less than 30 s ago.
pub consume-Consumed :
    (out : Outside) (t : Times) (n : ℕ) (job : Job) (s : Backend)
    → find_by_id n s.jobs ≡ some job
    → Consumed t job s (consume out t (id_text n) s)
unfolding consume
consume-Consumed out t n job s found = rw (found, consume) (consume_job-Consumed out t job s)

pub consume_acknowledges :
    (out : Outside) (t : Times) (m : Message) (s : Backend)
    → (consume out t m s).acknowledged ≡ s.acknowledged + 1
consume_acknowledges out t (garbage m) s = unfold consume in refl
consume_acknowledges out t (id_text n) s = elim (Option-cases (find_by_id n s.jobs)) [
  | inl missing ↦ unfold consume in rw (missing, consume) refl
  | inr (job, found) ↦ (consume-Consumed out t n job s found).0
]
