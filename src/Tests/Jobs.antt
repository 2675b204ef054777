-- ===== src/Tests/Jobs.antt =====
-- The theorems of the back end at concrete inputs.
use job_queue_event_processi.Prelude.{if◌then◌else◌}
use job_queue_event_processi.Prelude.{
  ℕ, zero, suc, ◌+◌, ◌≤◌, ◌<◌, ◌≡◌, ◌⊎◌, refl, true, false, not, leb, String, none, some, List, [],
  ◌∷◌, ◌++◌, length, replicate, arith,
}
use job_queue_event_processi.Queue.Job.{JobStatus, scheduled, queued, completed, Job}
use job_queue_event_processi.Queue.Repository.{find_by_id}
use job_queue_event_processi.Queue.Limiter.{allow, remove_upto}
use job_queue_event_processi.Queue.Limiter.Window.{
  Ascending, passed_of, requests, window_bound, window_decision, same_millisecond,
}
use job_queue_event_processi.Queue.State.{Backend, Message, id_text, garbage, get_key}
use job_queue_event_processi.Queue.Executor.{Outside, execute_job}
use job_queue_event_processi.Queue.Consumer.{Times, attempt, consume}
use job_queue_event_processi.Queue.Consumer.Moves.{Rewrites, consume-Rewrites}
use job_queue_event_processi.Queue.Consumer.Frame.{Consumed, IsBlocked, consume-Consumed}
use job_queue_event_processi.Queue.Consumer.Retry.{IsBudgeted}
use job_queue_event_processi.Queue.Consumer.Breaker.{
  FailsInRow, none_yet, fails, Throws, five_failures_block,
}
use job_queue_event_processi.Queue.State.{get_ready_jobs}
use job_queue_event_processi.Queue.State.Ready.{has}
use job_queue_event_processi.Queue.Dispatcher.{dispatch_job, dispatch}
use job_queue_event_processi.Queue.Dispatcher.Drain.{dispatch_drains}
use job_queue_event_processi.Queue.Dispatcher.Delivery.{
  IsScheduled, IsNotScheduled, dispatch_job_decides,
}
use job_queue_event_processi.Queue.Job.{pending}
use job_queue_event_processi.Queue.Repository.{
  find_pending_or_scheduled_in_range, find_retry_in_range,
}
use job_queue_event_processi.Queue.Watcher.{recover_scheduled, recover_missed_jobs}
use job_queue_event_processi.Queue.Watcher.Recovery.{All, is_waiting, recovery_counts}
use job_queue_event_processi.Queue.Service.{
  JobRequest, Readings, create_job, new_job, schedule_time_of,
}
use job_queue_event_processi.Queue.Service.Creation.{Created, create_job-Created}
use job_queue_event_processi.Queue.Admin.{requeue_job}
use job_queue_event_processi.Queue.Admin.Requeue.{
  IsRequeueable, Requeued, Refused, requeue_job_decides,
}

abbrev times : List ℕ
times = 100 ∷ 300 ∷ 700 ∷ 1200 ∷ []

abbrev times-Ascending : Ascending 0 times
times-Ascending = (omega arith, (omega arith, (omega arith, (omega arith, tt))))

window_bound_example : length (remove_upto 1200 1000 (passed_of 1000 2 times)) ≤ 2
window_bound_example = window_bound 1000 2 0 times times-Ascending

window_decision_example :
    (allow 1000 2 1250 (requests 1000 2 times [] []).0).0
    ≡ not (leb 2 (length (remove_upto 1250 1000 (passed_of 1000 2 times))))
window_decision_example = window_decision 1000 2 0 times 1250 times-Ascending (omega arith)

same_millisecond_example : length (passed_of 1000 5 (replicate 12 100)) ≡ 12
same_millisecond_example = same_millisecond 1000 5 100 12 (omega arith) (omega arith)

abbrev pub job_in : JobStatus → String → Job
job_in status type = record {
  id = 3;
  type = type;
  status = status;
  payload = none;
  email = none;
  message = none;
  retry_count = 2;
  schedule_time = some 50;
  next_retry_time = none;
  idempotency_key = "key";
}

abbrev pub state_of : List Job → Backend
state_of jobs = record {
  jobs = jobs;
  next_id = 4;
  delay_queue = (3, 50) ∷ [];
  cancellations = [];
  rates = [];
  last_run = none;
  topic = [];
  acknowledged = 0;
  failure_count = [];
  circuit_open = [];
  last_failure = [];
  publisher_enabled = true;
  incidents = [];
  executions = [];
}

abbrev api_job : Job
api_job = job_in queued "API"

abbrev api_state : Backend
api_state = state_of (api_job ∷ [])

-- A receiver that refuses every call, and mail that arrives.
abbrev pub outside : Outside
outside = record { send_mail = λ mail. none; call_api = λ url. some "Connection refused" }

abbrev pub reading : Times
reading = record { now = 1000; at_limiter = 1000; at_deferral = 1000 }

consume-Rewrites_example :
    Rewrites api_job api_state.jobs (consume outside reading (id_text 3) api_state).jobs
unfolding find_by_id
consume-Rewrites_example = consume-Rewrites outside reading 3 api_job api_state refl

consume-Consumed_example :
    Consumed reading api_job api_state (consume outside reading (id_text 3) api_state)
unfolding find_by_id
consume-Consumed_example = consume-Consumed outside reading 3 api_job api_state refl

abbrev messages : List (Times × Message)
messages = (reading, id_text 3) ∷ (reading, garbage "x") ∷ (reading, id_text 9) ∷ []

api_state-IsBudgeted : IsBudgeted api_state
unfolding find_by_id
api_state-IsBudgeted n job found = ground arith

api-Throws : Throws outside api_job
unfolding execute_job
api-Throws = ("Connection refused", refl)

-- The state after `n` failed attempts at 1000 ms.
abbrev failed_times : ℕ → Backend
failed_times zero = api_state
failed_times (suc n) = attempt outside 1000 api_job (failed_times n)

failed_times-FailsInRow : (n : ℕ) → FailsInRow outside "API" api_state n 1000 (failed_times n)
failed_times-FailsInRow zero = none_yet 1000
failed_times-FailsInRow (suc n) =
    fails 1000 api_job (failed_times-FailsInRow n) refl refl api-Throws

five_failures_block_example : IsBlocked 30999 "API" (failed_times 5)
five_failures_block_example =
    five_failures_block outside "API" api_state 5 1000 30999 (failed_times 5)
      (failed_times-FailsInRow 5) (omega arith) (omega arith)

-- A COMPLETED job whose message comes again while the limit of its type is used up.
abbrev done_job : Job
done_job = job_in completed "API"

abbrev busy_state : Backend
busy_state = record (state_of (done_job ∷ [])) {
  rates = ("API", 999 ∷ 998 ∷ 997 ∷ 996 ∷ 995 ∷ []) ∷ [];
}

abbrev timed_state : Backend
timed_state = state_of (job_in scheduled "LOG" ∷ [])

dispatch_job_decides_example :
    let s' = dispatch_job 3 timed_state in
    (get_key 3 s'.delay_queue ≡ none)
    × (((job : Job) × IsScheduled 3 timed_state job
          × (find_by_id 3 s'.jobs ≡ some (record job { status = queued }))
          × (s'.topic ≡ [] ++ id_text 3 ∷ []))
        ⊎ (IsNotScheduled 3 timed_state × (s'.jobs ≡ timed_state.jobs) × (s'.topic ≡ [])))
dispatch_job_decides_example = dispatch_job_decides 3 timed_state

abbrev request : JobRequest
request = record {
  type = "LOG";
  payload = none;
  time = some (10, 30);
  email = none;
  message = none;
}

abbrev readings : Readings
readings = record { at_request = 1000; after_save = 1005 }

abbrev time_of_day : ℕ → ℕ → ℕ → ℕ → ℕ
time_of_day now days hour minute = 90000

create_job-Created_example :
    let r = create_job time_of_day readings "key" request timed_state in
    let time = schedule_time_of time_of_day readings request.time in
    let job = new_job 4 time "key" request in
    ((time ≤ 61005)
      × (r.0 ≡ record job { status = queued })
      × Created r.0 (id_text 4 ∷ []) timed_state r.1)
    ⊎ ((61005 < time) × (r.0 ≡ job) × Created r.0 [] timed_state r.1)
create_job-Created_example =
    create_job-Created time_of_day readings "key" request timed_state (omega arith, tt)

requeue_job_decides_example :
    let r = requeue_job 3 busy_state in
    ((r.0.success ≡ true)
      × (job : Job) × IsRequeueable 3 busy_state job
      × Requeued 3 job busy_state r.1)
    ⊎ ((r.0.success ≡ false) × (r.1 ≡ busy_state) × Refused 3 busy_state)
requeue_job_decides_example = requeue_job_decides 3 busy_state

dispatch_drains_example :
    (get_key 3 (dispatch 1000 timed_state).delay_queue ≡ none)
    × ((k : ℕ)
        → get_key k (dispatch 1000 timed_state).delay_queue ≡ (
            if has k (get_ready_jobs 1000 timed_state)
            then none
            else get_key k timed_state.delay_queue))
unfolding get_key
dispatch_drains_example = dispatch_drains 1000 3 50 timed_state refl (omega arith)

abbrev pub missed_state : Backend
missed_state = state_of (job_in pending "EMAIL" ∷ [])

recovery_counts_example :
    let missed = find_pending_or_scheduled_in_range 0 1000 500 missed_state.jobs in
    let s₁ = (recover_scheduled missed 0 missed_state).1 in
    let retries = find_retry_in_range 0 1000 500 s₁.jobs in
    let r = recover_missed_jobs 1000 missed_state in
    (r.0 ≡ length missed + length retries)
    × All (is_waiting r.1) missed
    × All (is_waiting r.1) retries
recovery_counts_example = recovery_counts 1000 missed_state
