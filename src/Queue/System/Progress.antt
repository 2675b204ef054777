-- ===== src/Queue/System/Progress.antt =====
-- Jobs that nothing holds up are COMPLETED.
use job_queue_event_processi.Prelude.{
  ℕ, ◌+◌, ◌≤◌, ◌≡◌, ◌∙◌, refl, ap, subst, leb, Bool, true, false, Bool-cases, Option-cases, inl,
  inr, none, some, String, List, [], ◌∷◌, ◌++◌, arith,
}
use job_queue_event_processi.Prelude.Dict.{Dict}
use job_queue_event_processi.Queue.Job.{pending, scheduled, queued, processing, completed, is, Job}
use job_queue_event_processi.Queue.Repository.{
  find_by_id, find_by_id-save, find_by_id-id, save, time_of, count_by_status,
}
use job_queue_event_processi.Queue.State.{
  Backend, id_text, schedule_job, send_job, remove_job, get_ready_jobs, is_cancelled,
}
use job_queue_event_processi.Queue.Executor.{Outside, execute_job}
use job_queue_event_processi.Queue.Consumer.{
  Times, consume, consume_job, behind_limiter, attempt, allow_type, is_circuit_open,
}
use job_queue_event_processi.Queue.Service.{
  Readings, JobRequest, create_job, new_job, schedule_time_of, immediate_threshold, get_job,
}
use job_queue_event_processi.Queue.Service.Creation.{IsFresh, find_by_id-save-fresh}
use job_queue_event_processi.Queue.Watcher.{watch_pending, watch_retry, watch}
use job_queue_event_processi.Queue.Dispatcher.{dispatch_job, dispatch_all, dispatch}
use job_queue_event_processi.Queue.System.{created, watched, dispatched, received, step, run}
use job_queue_event_processi.Queue.System.Table.{IsUnique}
use job_queue_event_processi.Queue.System.Watching.Reach.{
  IsRegular, heartbeat-regular, watch_reaches,
}
use job_queue_event_processi.Queue.System.Sending.{has_message, dispatch_sends}

-- What can hold up a QUEUED job: flags, request counts and open circuits.
abbrev pub Guards : Type 0
Guards = List (ℕ × ℕ) × Dict (List ℕ) × Dict Bool

abbrev pub guards : Backend → Guards
guards s = (s.cancellations, s.rates, s.circuit_open)

watch_pending-guards : (js : List Job) (s : Backend) → guards (watch_pending js s) ≡ guards s
unfolding watch_pending schedule_job
watch_pending-guards [] s = refl
watch_pending-guards (job ∷ js) s = watch_pending-guards js _ ∙ ground arith

watch_retry-guards : (js : List Job) (s : Backend) → guards (watch_retry js s) ≡ guards s
unfolding watch_retry schedule_job
watch_retry-guards [] s = refl
watch_retry-guards (job ∷ js) s = watch_retry-guards js _ ∙ ground arith

watch-guards : (now : ℕ) (s : Backend) → IsRegular now s.last_run → guards (watch now s) ≡ guards s
unfolding watch
watch-guards now s regular =
    watch_retry-guards _ _
    ∙ watch_pending-guards _ _
    ∙ ap guards (heartbeat-regular now s.last_run (record s { last_run = some now }) regular)

dispatch_job-guards : (n : ℕ) (s : Backend) → guards (dispatch_job n s) ≡ guards s
unfolding dispatch_job send_job remove_job
dispatch_job-guards n s = elim (Option-cases (find_by_id n s.jobs)) [
  | inl missing ↦ rw (dispatch_job, missing) refl
  | inr (job, found) ↦ elim (Bool-cases (is job.status scheduled)) [
    | inl ready ↦ rw (dispatch_job, found, ready) refl
    | inr away ↦ rw (dispatch_job, found, away) refl
  ]
]

dispatch_all-guards : (ns : List ℕ) (s : Backend) → guards (dispatch_all ns s) ≡ guards s
unfolding dispatch_all
dispatch_all-guards [] s = refl
dispatch_all-guards (n ∷ ns) s = dispatch_all-guards ns (dispatch_job n s) ∙ dispatch_job-guards n s

dispatch-guards : (now : ℕ) (s : Backend) → guards (dispatch now s) ≡ guards s
unfolding dispatch
dispatch-guards now s = dispatch_all-guards (get_ready_jobs now s) s

-- Nothing holds up a job, and its execution succeeds.
pub record IsClear (out : Outside) (t : Times) (job : Job) (s : Backend) : Type 0 where
  pub unflagged : is_cancelled t.now job.id s ≡ false
  pub allowed : (allow_type t.at_limiter job.type s).0 ≡ true
  pub closed : is_circuit_open job.type s ≡ false
  pub succeeds : execute_job out (record job { status = processing }) ≡ none

attempt-completes :
    (out : Outside) (now : ℕ) (job : Job) (s : Backend)
    → job.status ≡ queued
    → execute_job out (record job { status = processing }) ≡ none
    → find_by_id job.id (attempt out now job s).jobs ≡ some (record job { status = completed })
unfolding attempt
attempt-completes out now job s ready ok =
    let done = record job { status = completed } in
    rw (ready, ok)
      (find_by_id-save job.id done (save (record job { status = processing }) s.jobs)
        ∙ ground arith)

consume_completes :
    (out : Outside) (t : Times) (n : ℕ) (job : Job) (s : Backend)
    → find_by_id n s.jobs ≡ some job
    → job.status ≡ queued
    → IsClear out t job s
    → find_by_id n (consume out t (id_text n) s).jobs ≡ some (record job { status = completed })
unfolding consume consume_job behind_limiter allow_type
consume_completes out t n job s row ready clear =
    let same = find_by_id-id n s.jobs job row in
    let a = allow_type t.at_limiter job.type s in
    rw (consume, row, clear.unflagged, clear.allowed, clear.closed)
      (subst
        (λ k.
          find_by_id k (attempt out t.now job a.1).jobs ≡ some (record job { status = completed }))
        same (attempt-completes out t.now job a.1 ready clear.succeeds))

-- The three guards read the state at its guards only.
IsClear-guards :
    (out : Outside) (t : Times) (job : Job) (s s' : Backend)
    → guards s' ≡ guards s
    → IsClear out t job s
    → IsClear out t job s'
unfolding is_cancelled allow_type
IsClear-guards out t job s s' e clear = record {
  unflagged = rw (ap (λ (g : Guards). g.0) e) clear.unflagged;
  allowed = rw (ap (λ (g : Guards). g.1) e) clear.allowed;
  closed = rw (ap (λ (g : Guards). g.2) e) clear.closed;
  succeeds = clear.succeeds;
}

module _ (at_time : ℕ → ℕ → ℕ → ℕ → ℕ) (out : Outside) where
  -- A PENDING job is COMPLETED, with its other data kept, by a run of the watcher from 20 s before
  -- its time on, a run of the dispatcher from its time on, and the delivery of its message, which
  -- these two runs have put on the topic. This holds where no id occurs twice, the watcher has run
  -- in the last 25 s or never, at most 200 jobs are PENDING, no flag, rate limit or open circuit
  -- holds the job up, and its execution succeeds.
  pub pending_completes :
      (now later n time : ℕ) (t : Times) (job : Job) (s : Backend)
      → IsUnique s.jobs
      → IsRegular now s.last_run
      → count_by_status pending s.jobs ≤ 200
      → find_by_id n s.jobs ≡ some job
      → job.status ≡ pending
      → job.schedule_time ≡ some time
      → time ≤ now + 20000
      → time ≤ later
      → IsClear out t job s
      → let sent = run at_time out (watched now ∷ dispatched later ∷ []) s in
        let s' = run at_time out (received t (id_text n) ∷ []) sent in
        (has_message n sent.topic ≡ true)
        × (find_by_id n s'.jobs ≡ some (record job { status = completed }))
  unfolding run step
  pending_completes now later n time t job s u regular few row from due soon late clear =
      let s₁ = watch now s in
      let s₂ = dispatch later s₁ in
      let waits = watch_reaches now n time job s u regular few row from due soon in
      let passed : time_of job.schedule_time ≤ later = rw due late in
      let sent = dispatch_sends later n (record job { status = scheduled }) s₁ waits refl passed in
      let same = dispatch-guards later s₁ ∙ watch-guards now s regular in
      (
        sent.1,
        consume_completes out t n (record job { status = queued }) s₂ sent.0 refl
            (IsClear-guards out t (record job { status = queued }) s s₂ same
              (record {
                unflagged = clear.unflagged;
                allowed = clear.allowed;
                closed = clear.closed;
                succeeds = clear.succeeds;
              })),
      )

  -- A job whose time is at most a minute ahead is COMPLETED by its creation and the delivery of its
  -- message, which its creation puts on the topic, where the next id is free, no flag, rate limit or
  -- open circuit holds the job up, and its execution succeeds.
  pub immediate_completes :
      (clock : Readings) (key : String) (request : JobRequest) (t : Times) (s : Backend)
      → let time = schedule_time_of at_time clock request.time in
        let job = new_job s.next_id time key request in
        IsFresh s.next_id s.jobs
        → time ≤ clock.after_save + immediate_threshold
        → IsClear out t job s
        → let sent = run at_time out (created clock key request ∷ []) s in
          let s' = run at_time out (received t (id_text s.next_id) ∷ []) sent in
          (sent.topic ≡ s.topic ++ id_text s.next_id ∷ [])
          × (get_job s.next_id s' ≡ some (record job { status = completed }))
  unfolding run step get_job create_job new_job send_job
  immediate_completes clock key request t s fresh soon clear =
      let time = schedule_time_of at_time clock request.time in
      let is_soon : leb time (clock.after_save + immediate_threshold) ≡ true = ground arith in
      let job = new_job s.next_id time key request in
      let ready = record job { status = queued } in
      let s₁ = (create_job at_time clock key request s).1 in
      let row : find_by_id s.next_id s₁.jobs ≡ some ready =
        rw is_soon (find_by_id-save-fresh s.next_id job ready s.jobs refl refl fresh) in
      let same : guards s₁ ≡ guards s = rw is_soon refl in
      let topic : s₁.topic ≡ s.topic ++ id_text s.next_id ∷ [] = rw is_soon refl in
      (
        topic,
        consume_completes out t s.next_id ready s₁ row refl (
            IsClear-guards out t ready s s₁ same (record {
              unflagged = clear.unflagged;
              allowed = clear.allowed;
              closed = clear.closed;
              succeeds = clear.succeeds;
            })),
      )
