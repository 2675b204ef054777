-- ===== src/Queue/System/Messages.antt =====
-- The consumption of a message keeps the rows.
use job_queue_event_processi.Prelude.{
  ℕ, ◌-◌, ◌≡◌, ◌∙◌, ◌==◌, ==_iff, sym, ap, false, Bool-cases, Option-cases, inl, inr, ltb, leb,
  String, some, List,
}
use job_queue_event_processi.Queue.Job.{queued, processing, is, Job}
use job_queue_event_processi.Queue.Repository.{find_by_id, find_by_id-id, save}
use job_queue_event_processi.Queue.State.{
  Message, id_text, garbage, Incident, Backend, publish, is_cancelled, clear_cancellation,
}
use job_queue_event_processi.Queue.Executor.{Outside, execute_job}
use job_queue_event_processi.Queue.Consumer.{
  Times, record_failure, retry_or_fail, attempt, behind_limiter, consume_job, consume, allow_type,
  circuit_timeout, is_circuit_open, last_failure_of, set_circuit_open,
}
use job_queue_event_processi.Queue.Consumer.Moves.{
  publish-jobs, record_failure-jobs, Rewrites, consume-Rewrites, consume_unknown,
}
use job_queue_event_processi.Queue.System.Life.{by_message, Move-Life}
use job_queue_event_processi.Queue.System.Table.{IsUnique, save-IsUnique}
use job_queue_event_processi.Queue.System.Rows.{Keeps, Keeps-refl, RowKept, RowKept-refl}

-- A table after any number of saves.
data Saves (js : List Job) : List Job → Type 0 where
  same : Saves js js
  saved : {js' : List Job} (job : Job) → Saves js js' → Saves js (save job js')

Saves-IsUnique : {js js' : List Job} → Saves js js' → IsUnique js → IsUnique js'
Saves-IsUnique same u = u
Saves-IsUnique (saved job h) u = save-IsUnique job _ (Saves-IsUnique h u)

publish-Saves :
    (js : List Job) (i : Incident) (s : Backend) → Saves js s.jobs → Saves js (publish i s).jobs
publish-Saves js i s h = rw (publish-jobs i s) h

record_failure-Saves :
    (js : List Job) (now : ℕ) (job : Job) (e : String) (s : Backend)
    → Saves js s.jobs
    → Saves js (record_failure now job e s).jobs
record_failure-Saves js now job e s h = rw (record_failure-jobs now job e s) h

retry_or_fail-Saves :
    (js : List Job) (now : ℕ) (job : Job) (e : String) (s : Backend)
    → Saves js s.jobs
    → Saves js (retry_or_fail now job e s).jobs
unfolding retry_or_fail
retry_or_fail-Saves js now job e s h = elim (Bool-cases (leb 5 job.retry_count)) [
  | inl spent ↦ rw spent (publish-Saves js _ _ (saved _ h))
  | inr left ↦ rw left (saved _ h)
]

attempt-Saves :
    (out : Outside) (now : ℕ) (job : Job) (s : Backend) → Saves s.jobs (attempt out now job s).jobs
unfolding attempt
attempt-Saves out now job s = elim (Bool-cases (is job.status queued)) [
  | inr other ↦ rw other same
  | inl ready ↦
      let started = record job { status = processing } in
      rw ready (elim (Option-cases (execute_job out started)) [
        | inl ok ↦ rw ok (saved _ (saved _ same))
        | inr (e, threw) ↦ rw threw (
            retry_or_fail-Saves s.jobs now started e _
              (record_failure-Saves s.jobs now job e _ (saved started same)))
      ])
]

behind_limiter-Saves :
    (out : Outside) (now : ℕ) (job : Job) (s : Backend)
    → Saves s.jobs (behind_limiter out now job s).jobs
unfolding behind_limiter
behind_limiter-Saves out now job s = elim (Bool-cases (is_circuit_open job.type s)) [
  | inr shut ↦ rw shut (attempt-Saves out now job s)
  | inl open_circuit ↦
      rw open_circuit (elim (Bool-cases (ltb (now - last_failure_of job.type s) circuit_timeout)) [
        | inl fresh ↦ rw fresh (saved _ (publish-Saves s.jobs _ s same))
        | inr stale ↦ rw stale (attempt-Saves out now job (set_circuit_open job.type false s))
      ])
]

consume_job-Saves :
    (out : Outside) (t : Times) (job : Job) (s : Backend)
    → Saves s.jobs (consume_job out t job s).jobs
unfolding consume_job allow_type clear_cancellation
consume_job-Saves out t job s = elim (Bool-cases (is_cancelled t.now job.id s)) [
  | inl flagged ↦ rw flagged (saved _ same)
  | inr free ↦
      let a = allow_type t.at_limiter job.type s in
      rw free (elim (Bool-cases a.0) [
        | inl allowed ↦ rw allowed (behind_limiter-Saves out t.now job a.1)
        | inr over ↦ rw over (saved _ (publish-Saves s.jobs _ a.1 same))
      ])
]

Rewrites-RowKept :
    (job : Job) (js js' : List Job)
    → find_by_id job.id js ≡ some job
    → Rewrites job js js'
    → (n : ℕ) → RowKept by_message (find_by_id n js) (find_by_id n js')
Rewrites-RowKept job js js' found r n = rw (r.table n) (elim (Bool-cases (job.id == n)) [
  | inl same_id ↦ rw same_id (
      rw (sym (ap (λ k. find_by_id k js) ((==_iff job.id n).0 same_id)) ∙ found)
        (Move-Life job r.row r.moved, r.same_type))
  | inr other ↦ rw other (RowKept-refl by_message (find_by_id n js))
])

consume-Saves :
    (out : Outside) (t : Times) (n : ℕ) (job : Job) (s : Backend)
    → find_by_id n s.jobs ≡ some job
    → Saves s.jobs (consume out t (id_text n) s).jobs
unfolding consume
consume-Saves out t n job s found = rw (consume, found) (consume_job-Saves out t job s)

pub consume-Keeps :
    (out : Outside) (t : Times) (m : Message) (s : Backend)
    → Keeps by_message s.jobs (consume out t m s).jobs
consume-Keeps out t (garbage text) s = unfold consume in Keeps-refl s.jobs
consume-Keeps out t (id_text n) s = elim (Option-cases (find_by_id n s.jobs)) [
  | inl missing ↦ rw (consume_unknown out t "" n s missing).1 (Keeps-refl s.jobs)
  | inr (job, found) ↦ record {
    unique = Saves-IsUnique (consume-Saves out t n job s found);
    rows =
        Rewrites-RowKept job s.jobs (consume out t (id_text n) s).jobs
          (ap (λ k. find_by_id k s.jobs) (find_by_id-id n s.jobs job found) ∙ found)
          (consume-Rewrites out t n job s found);
  }
]
