-- ===== src/Queue/System/Course.antt =====
-- Any sequence of events keeps the state sound, and leads every job through its life.
use job_queue_event_processi.Prelude.{
  ℕ, suc, ◌≤◌, ◌≡◌, ◌∙◌, ◌==◌, ==_iff, refl, sym, ap, subst, Bool-cases, inl, inr, Option, none,
  some, List, [], ◌∷◌, arith,
}
use job_queue_event_processi.Queue.Job.{Job}
use job_queue_event_processi.Queue.Repository.{find_by_id}
use job_queue_event_processi.Queue.State.{Backend, cancel_job}
use job_queue_event_processi.Queue.Executor.{Outside}
use job_queue_event_processi.Queue.Consumer
use job_queue_event_processi.Queue.Watcher.{trigger_recovery}
use job_queue_event_processi.Queue.System.{
  Event, created, cancel_asked, received, dispatched, watched, recovered, reconciled, requeued,
  circuit_reset, step, run,
}
use job_queue_event_processi.Queue.System.Life.{
  Kind, by_creation, by_flag, by_watcher, by_dispatcher, by_hand, by_message, view, Life,
  Life-IsStable, IsNew, IsNew-IsStable, IsStable,
}
use job_queue_event_processi.Queue.System.Table.{IsUnique}
use job_queue_event_processi.Queue.System.Rows.{Keeps, Keeps-refl, RowKept, RowKept-refl, some_inj}
use job_queue_event_processi.Queue.System.Steps.{
  recover_missed_jobs-Keeps, watch-Keeps, reconcile_redis-Keeps,
}
use job_queue_event_processi.Queue.System.Sends.{dispatch-Keeps, requeue_job-Keeps}
use job_queue_event_processi.Queue.System.Messages.{consume-Keeps}
use job_queue_event_processi.Queue.System.Creation.{Adds, create_job-Adds}
use job_queue_event_processi.Queue.System.Ids.{
  recover_missed_jobs-next_id, watch-next_id, reconcile_redis-next_id, dispatch-next_id,
  requeue_job-next_id, consume-next_id,
}

-- No id occurs twice, the next id and those above it are free, and every row is stable.
pub record IsSound (s : Backend) : Type 0 where
  pub unique : IsUnique s.jobs
  pub free : (n : ℕ) → s.next_id ≤ n → find_by_id n s.jobs ≡ none
  pub stable : (n : ℕ) (job : Job) → find_by_id n s.jobs ≡ some job → IsStable (view job)

-- Who may change a row at an event.
abbrev pub kind_of : Event → Kind
kind_of (created clock key request) = by_creation
kind_of (cancel_asked now id) = by_flag
kind_of (received t m) = by_message
kind_of (dispatched now) = by_dispatcher
kind_of (watched now) = by_watcher
kind_of (recovered now) = by_watcher
kind_of (reconciled now) = by_watcher
kind_of (requeued id) = by_hand
kind_of (circuit_reset type) = by_flag

-- How a row goes on at an event: it stays, with its type, and lives on; only a creation may add a row,
-- and a new one.
abbrev pub RowLives : Kind → Option Job → Option Job → Type 0
RowLives k none none = Unit {0}
RowLives k none (some b) = (k ≡ by_creation) × IsNew (view b)
RowLives k (some a) none = ⊥
RowLives k (some a) (some b) = Life k (view a) (view b) × (b.type ≡ a.type)

RowKept-RowLives : (k : Kind) (a b : Option Job) → RowKept k a b → RowLives k a b
RowKept-RowLives k none none h = tt
RowKept-RowLives k none (some b) h = absurd h
RowKept-RowLives k (some a) none h = absurd h
RowKept-RowLives k (some a) (some b) h = h

-- How a row goes on from event to event.
abbrev pub Course : List Event → Option Job → Option Job → Type 0
Course [] a c = c ≡ a
Course (e ∷ es) a c = (b : Option Job) × RowLives (kind_of e) a b × Course es b c

abbrev Lives : Kind → Backend → Backend → Type 0
Lives k s s' = (n : ℕ) → RowLives k (find_by_id n s.jobs) (find_by_id n s'.jobs)

RowLives-IsStable :
    (k : Kind) (a b : Option Job)
    → RowLives k a b
    → ((job : Job) → a ≡ some job → IsStable (view job))
    → (job : Job) → b ≡ some job
    → IsStable (view job)
RowLives-IsStable k none none h old job e = absurd (ground arith)
RowLives-IsStable k none (some b) (made, new) old job e =
    subst (λ j. IsStable (view j)) (some_inj b job (some b) refl e) (IsNew-IsStable (view b) new)
RowLives-IsStable k (some a) none h old job e = absurd h
RowLives-IsStable k (some a) (some b) (l, s) old job e =
    subst (λ j. IsStable (view j)) (some_inj b job (some b) refl e) (Life-IsStable l (old a refl))

-- What a step does.
abbrev Steps : Kind → Backend → Backend → Type 0
Steps k s s' = IsSound s' × Lives k s s'

kept-free : (k : Kind) (a b : Option Job) → RowKept k a b → a ≡ none → b ≡ none
kept-free k none none h e = refl
kept-free k none (some b) h e = absurd h
kept-free k (some a) b h e = absurd (ground arith)

Keeps-Steps :
    {k : Kind} (s s' : Backend)
    → IsSound s
    → Keeps k s.jobs s'.jobs
    → s'.next_id ≡ s.next_id
    → Steps k s s'
Keeps-Steps {k = k} s s' h kept same =
    let lives : Lives k s s' = λ n. RowKept-RowLives k _ _ (kept.rows n) in
    (
      record {
        unique = kept.unique h.unique;
        free = λ n le. kept-free _ _ _ (kept.rows n) (h.free n (omega arith));
        stable = λ n. RowLives-IsStable _ _ _ (lives n) (h.stable n);
      },
      lives,
    )

Adds-RowLives :
    (n : ℕ) (js js' : List Job)
    → Adds n js js'
    → find_by_id n js ≡ none
    → (m : ℕ) → RowLives by_creation (find_by_id m js) (find_by_id m js')
Adds-RowLives n js js' a fresh m = rw (a.table m) (elim (Bool-cases (n == m)) [
  | inl same ↦
      rw same (rw (sym (ap (λ k. find_by_id k js) ((==_iff n m).0 same)) ∙ fresh) (refl, a.new))
  | inr other ↦
      rw other (RowKept-RowLives by_creation _ _ (RowKept-refl by_creation (find_by_id m js)))
])

Adds-Steps :
    (s s' : Backend)
    → IsSound s
    → Adds s.next_id s.jobs s'.jobs
    → s'.next_id ≡ suc s.next_id
    → Steps by_creation s s'
Adds-Steps s s' h a next =
    let lives : Lives by_creation s s' =
      Adds-RowLives s.next_id s.jobs s'.jobs a (h.free s.next_id (omega arith)) in
    (
      record {
        unique = a.unique h.unique;
        free = λ n le. a.table n ∙ ground (arith, h.free n (omega arith));
        stable = λ n. RowLives-IsStable _ _ _ (lives n) (h.stable n);
      },
      lives,
    )

module _ (at_time : ℕ → ℕ → ℕ → ℕ → ℕ) (out : Outside) where
  step-Steps : (e : Event) (s : Backend) → IsSound s → Steps (kind_of e) s (step at_time out e s)
  unfolding step trigger_recovery cancel_job Consumer.reset_circuit
  step-Steps (created clock key request) s h =
      let (added, next) =
        create_job-Adds at_time clock key request s (h.free s.next_id (omega arith)) in
      Adds-Steps s _ h added next
  step-Steps (cancel_asked now id) s h = Keeps-Steps s _ h (Keeps-refl s.jobs) refl
  step-Steps (received t m) s h =
      Keeps-Steps s _ h (consume-Keeps out t m s) (consume-next_id out t m s)
  step-Steps (dispatched now) s h =
      Keeps-Steps s _ h (dispatch-Keeps now s) (dispatch-next_id now s)
  step-Steps (watched now) s h =
      Keeps-Steps s _ h (watch-Keeps now s h.unique) (watch-next_id now s)
  step-Steps (recovered now) s h =
      Keeps-Steps s _ h (recover_missed_jobs-Keeps now s h.unique)
        (recover_missed_jobs-next_id now s)
  step-Steps (reconciled now) s h =
      Keeps-Steps s _ h (reconcile_redis-Keeps now s h.unique) (reconcile_redis-next_id now s)
  step-Steps (requeued id) s h =
      Keeps-Steps s _ h (requeue_job-Keeps id s) (requeue_job-next_id id s)
  step-Steps (circuit_reset type) s h = Keeps-Steps s _ h (Keeps-refl s.jobs) refl

  run-Steps :
      (es : List Event) (s : Backend)
      → IsSound s
      → IsSound (run at_time out es s)
        × ((n : ℕ) → Course es (find_by_id n s.jobs) (find_by_id n (run at_time out es s).jobs))
  unfolding run
  run-Steps [] s h = (h, λ n. refl)
  run-Steps (e ∷ es) s h =
      let (sound₁, lives) = step-Steps e s h in
      let (sound₂, course) = run-Steps es (step at_time out e s) sound₁ in
      (sound₂, λ n. (_, lives n, course n))

  -- Whatever happens, in whatever order and however often the messages are delivered, a sound state
  -- stays sound: no id occurs twice, the next id is free, no job is left in PROCESSING, no job has
  -- more than 5 retries, and a job is FAILED only with all 5 used and PENDING only with none used.
  pub run-IsSound : (es : List Event) (s : Backend) → IsSound s → IsSound (run at_time out es s)
  run-IsSound es s h = (run-Steps es s h).0

  -- From a sound state, any sequence of events takes the row of every id from event to event, and
  -- each event makes only its own changes: the watcher, the recovery and the reconciliation take
  -- PENDING or RETRY to SCHEDULED, the dispatcher SCHEDULED to QUEUED, the requeueing by hand anything
  -- but COMPLETED and CANCELLED to QUEUED, and a message takes QUEUED to COMPLETED, to RETRY with one
  -- retry more while they are below 5, or to FAILED when they are used up, and anything to CANCELLED
  -- or to RETRY; a request to cancel and a reset of a circuit change none of these. No row is lost, its type
  -- is kept, and a row appears only at a creation, PENDING or QUEUED with no retry, where the other
  -- rows keep their status and retries.
  pub run-Lives :
      (es : List Event) (s : Backend)
      → IsSound s
      → (n : ℕ) → Course es (find_by_id n s.jobs) (find_by_id n (run at_time out es s).jobs)
  run-Lives es s h = (run-Steps es s h).1
