-- ===== src/Queue/Consumer/Moves.antt =====
-- How one message changes the jobs table.
use job_queue_event_processi.Prelude.{
  ℕ, ◌+◌, ◌-◌, ◌<◌, ◌≤◌, ◌≡◌, inl, inr, refl, ap, subst, sym, ltb, ◌==◌, String, false, none, some,
  List, if◌then◌else◌, arith, Bool-cases, Option-cases, leb, leb→le,
}
use job_queue_event_processi.Queue.Job.{
  queued, processing, completed, failed, retry, cancelled, is, is-eq, Job,
}
use job_queue_event_processi.Queue.Repository.{find_by_id, save, find_by_id-save, find_by_id-id}
use job_queue_event_processi.Queue.State.{
  id_text, garbage, Backend, Incident, publish, is_cancelled, clear_cancellation,
}
use job_queue_event_processi.Queue.Executor.{Outside, execute_job}
use job_queue_event_processi.Queue.Consumer.{
  Times, record_failure, retry_or_fail, attempt, behind_limiter, consume_job, consume, allow_type,
  circuit_timeout, is_circuit_open, last_failure_of, set_circuit_open,
}

-- What consuming its message does to a job.
pub data Move (job row : Job) : Type 0 where
  stay : row ≡ job → Move job row
  cancel : row.status ≡ cancelled → row.retry_count ≡ job.retry_count → Move job row
  defer : row.status ≡ retry → row.retry_count ≡ job.retry_count → Move job row
  complete :
      job.status ≡ queued
      → row.status ≡ completed
      → row.retry_count ≡ job.retry_count
      → Move job row
  back_off :
      job.status ≡ queued
      → job.retry_count < 5
      → row.status ≡ retry
      → row.retry_count ≡ job.retry_count + 1
      → Move job row
  exhaust :
      job.status ≡ queued
      → 5 ≤ job.retry_count
      → row.status ≡ failed
      → row.retry_count ≡ job.retry_count
      → Move job row

-- The table after a handler: the job's row holds the job with its status moved and its identity
-- kept, and every other row is as before.
pub record Rewrites (job : Job) (before after : List Job) : Type 0 where
  pub row : Job
  pub same_id : row.id ≡ job.id
  pub same_type : row.type ≡ job.type
  pub moved : Move job row
  pub table : (m : ℕ) → find_by_id m after ≡ (if job.id == m then some row else find_by_id m before)

pub publish-jobs : (i : Incident) (s : Backend) → (publish i s).jobs ≡ s.jobs
unfolding publish
publish-jobs i s = ground arith

pub record_failure-jobs :
    (now : ℕ) (job : Job) (e : String) (s : Backend) → (record_failure now job e s).jobs ≡ s.jobs
unfolding record_failure publish
record_failure-jobs now job e s = ground arith

stay-Rewrites : (job : Job) (js : List Job) → find_by_id job.id js ≡ some job → Rewrites job js js
stay-Rewrites job js found = record {
  row = job;
  same_id = refl;
  same_type = refl;
  moved = stay refl;
  table = λ m. same m;
}
  where
    same : (m : ℕ) → find_by_id m js ≡ (if job.id == m then some job else find_by_id m js)
    same m = ground (arith, ap (λ k. find_by_id k js) {x = job.id} {y = m})

save-Rewrites :
    (job row : Job) (js : List Job)
    → row.id ≡ job.id
    → row.type ≡ job.type
    → Move job row
    → Rewrites job js (save row js)
save-Rewrites job row js same kind move = record {
  row = row;
  same_id = same;
  same_type = kind;
  moved = move;
  table = λ m. ground (arith, find_by_id-save m row js);
}

-- Of two saves of one row the second one counts.
save-save-Rewrites :
    (job first row : Job) (js : List Job)
    → first.id ≡ job.id
    → row.id ≡ job.id
    → row.type ≡ job.type
    → Move job row
    → Rewrites job js (save row (save first js))
save-save-Rewrites job first row js same₁ same₂ kind move = record {
  row = row;
  same_id = same₂;
  same_type = kind;
  moved = move;
  table = λ m. ground (arith, find_by_id-save m row (save first js), find_by_id-save m first js);
}

retry_or_fail-Rewrites :
    (now : ℕ) (job : Job) (e : String) (before : List Job) (s : Backend)
    → job.status ≡ queued
    → s.jobs ≡ save (record job { status = processing }) before
    → Rewrites job before (retry_or_fail now (record job { status = processing }) e s).jobs
unfolding retry_or_fail publish
retry_or_fail-Rewrites now job e before s is_queued table =
    elim (Bool-cases (leb 5 job.retry_count)) [
      | inl spent ↦
          rw (spent, publish-jobs, table)
            (save-save-Rewrites job _ _ before refl refl refl
              (exhaust is_queued (leb→le 5 _ spent) refl refl))
      | inr left ↦
          rw (left, table)
            (save-save-Rewrites job _ _ before refl refl refl
              (back_off is_queued (ground arith) refl refl))
    ]

attempt-Rewrites :
    (out : Outside) (now : ℕ) (job : Job) (s : Backend)
    → find_by_id job.id s.jobs ≡ some job
    → Rewrites job s.jobs (attempt out now job s).jobs
unfolding attempt
attempt-Rewrites out now job s found = elim (Bool-cases (is job.status queued)) [
  | inr other ↦ rw other (stay-Rewrites job s.jobs found)
  | inl ready ↦
      let is_queued = is-eq job.status queued ready in
      rw ready (elim (Option-cases (execute_job out (record job { status = processing }))) [
        | inl ok ↦
            rw ok (save-save-Rewrites job _ _ s.jobs refl refl refl (complete is_queued refl refl))
        | inr (e, threw) ↦
            rw threw (
              retry_or_fail-Rewrites now job e s.jobs _ is_queued (record_failure-jobs now job e _))
      ])
]

behind_limiter-Rewrites :
    (out : Outside) (now : ℕ) (job : Job) (s : Backend)
    → find_by_id job.id s.jobs ≡ some job
    → Rewrites job s.jobs (behind_limiter out now job s).jobs
unfolding behind_limiter
behind_limiter-Rewrites out now job s found = elim (Bool-cases (is_circuit_open job.type s)) [
  | inr shut ↦ rw shut (attempt-Rewrites out now job s found)
  | inl open_circuit ↦
      rw open_circuit (elim (Bool-cases (ltb (now - last_failure_of job.type s) circuit_timeout)) [
        | inl fresh ↦
            rw (fresh, publish-jobs) (save-Rewrites job _ s.jobs refl refl (defer refl refl))
        | inr stale ↦
            rw stale (attempt-Rewrites out now job (set_circuit_open job.type false s) found)
      ])
]

consume_job-Rewrites :
    (out : Outside) (t : Times) (job : Job) (s : Backend)
    → find_by_id job.id s.jobs ≡ some job
    → Rewrites job s.jobs (consume_job out t job s).jobs
unfolding consume_job allow_type clear_cancellation
consume_job-Rewrites out t job s found = elim (Bool-cases (is_cancelled t.now job.id s)) [
  | inl flagged ↦ rw flagged (save-Rewrites job _ s.jobs refl refl (cancel refl refl))
  | inr free ↦
      let a = allow_type t.at_limiter job.type s in
      rw free (elim (Bool-cases a.0) [
        | inl allowed ↦ rw allowed (behind_limiter-Rewrites out t.now job a.1 found)
        | inr over ↦
            rw (over, publish-jobs) (save-Rewrites job _ s.jobs refl refl (defer refl refl))
      ])
]

-- A message with the id of a job in the table rewrites that job's row by one `Move`, keeps its id
-- and type, and leaves every other row as it is.
pub consume-Rewrites :
    (out : Outside) (t : Times) (n : ℕ) (job : Job) (s : Backend)
    → find_by_id n s.jobs ≡ some job
    → Rewrites job s.jobs (consume out t (id_text n) s).jobs
unfolding consume
consume-Rewrites out t n job s found =
    rw (found, consume)
      (consume_job-Rewrites out t job s (
        subst (λ k. find_by_id k s.jobs ≡ some job) (sym (find_by_id-id n s.jobs job found)) found))

-- A message that is no number or names no job changes nothing but the acknowledgement.
pub consume_unknown :
    (out : Outside) (t : Times) (m : String) (n : ℕ) (s : Backend)
    → find_by_id n s.jobs ≡ none
    → (consume out t (garbage m) s ≡ record s { acknowledged = s.acknowledged + 1 })
      × (consume out t (id_text n) s ≡ record s { acknowledged = s.acknowledged + 1 })
unfolding consume
consume_unknown out t m n s missing = (refl, rw (missing, consume) refl)
