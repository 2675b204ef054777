-- ===== src/Queue/System/Ids.antt =====
-- No operation but a creation draws an id.
use job_queue_event_processi.Prelude.{
  ℕ, ◌≡◌, ◌∙◌, refl, String, Option, none, some, List, [], ◌∷◌, arith,
}
use job_queue_event_processi.Queue.Job.{Job}
use job_queue_event_processi.Queue.State.{
  Message, id_text, garbage, Incident, Backend, publish, schedule_job, send_job, remove_job,
  get_ready_jobs, clear_cancellation,
}
use job_queue_event_processi.Queue.Executor.{Outside}
use job_queue_event_processi.Queue.Consumer.{
  Times, record_failure, retry_or_fail, attempt, behind_limiter, consume_job, consume, allow_type,
}
use job_queue_event_processi.Queue.Watcher.{
  watch_pending, watch_retry, recover_scheduled, recover_retry, recover_missed_jobs, heartbeat,
  watch,
}
use job_queue_event_processi.Queue.Dispatcher.{dispatch_job, dispatch_all, dispatch}
use job_queue_event_processi.Queue.Admin.{
  reinsert_overdue, requeue_due, reconcile_redis, requeue_job,
}

watch_pending-next_id : (js : List Job) (s : Backend) → (watch_pending js s).next_id ≡ s.next_id
unfolding watch_pending schedule_job
watch_pending-next_id [] s = refl
watch_pending-next_id (job ∷ js) s = watch_pending-next_id js _ ∙ ground arith

watch_retry-next_id : (js : List Job) (s : Backend) → (watch_retry js s).next_id ≡ s.next_id
unfolding watch_retry schedule_job
watch_retry-next_id [] s = refl
watch_retry-next_id (job ∷ js) s = watch_retry-next_id js _ ∙ ground arith

recover_scheduled-next_id :
    (js : List Job) (count : ℕ) (s : Backend) → (recover_scheduled js count s).1.next_id ≡ s.next_id
unfolding recover_scheduled schedule_job
recover_scheduled-next_id [] count s = refl
recover_scheduled-next_id (job ∷ js) count s = recover_scheduled-next_id js _ _ ∙ ground arith

recover_retry-next_id :
    (js : List Job) (count : ℕ) (s : Backend) → (recover_retry js count s).1.next_id ≡ s.next_id
unfolding recover_retry schedule_job
recover_retry-next_id [] count s = refl
recover_retry-next_id (job ∷ js) count s = recover_retry-next_id js _ _ ∙ ground arith

reinsert_overdue-next_id :
    (js : List Job) (count : ℕ) (s : Backend) → (reinsert_overdue js count s).1.next_id ≡ s.next_id
unfolding reinsert_overdue schedule_job
reinsert_overdue-next_id [] count s = refl
reinsert_overdue-next_id (job ∷ js) count s = reinsert_overdue-next_id js _ _ ∙ ground arith

requeue_due-next_id :
    (js : List Job) (count : ℕ) (s : Backend) → (requeue_due js count s).1.next_id ≡ s.next_id
unfolding requeue_due schedule_job
requeue_due-next_id [] count s = refl
requeue_due-next_id (job ∷ js) count s = requeue_due-next_id js _ _ ∙ ground arith

publish-next_id : (i : Incident) (s : Backend) → (publish i s).next_id ≡ s.next_id
unfolding publish
publish-next_id i s = ground arith

pub recover_missed_jobs-next_id :
    (now : ℕ) (s : Backend) → (recover_missed_jobs now s).1.next_id ≡ s.next_id
unfolding recover_missed_jobs
recover_missed_jobs-next_id now s = recover_retry-next_id _ _ _ ∙ recover_scheduled-next_id _ 0 s

heartbeat-next_id :
    (now : ℕ) (last : Option ℕ) (s : Backend) → (heartbeat now last s).next_id ≡ s.next_id
unfolding heartbeat
heartbeat-next_id now none s = refl
heartbeat-next_id now (some last) s =
    grind (arith, recover_missed_jobs-next_id now, publish-next_id)

pub watch-next_id : (now : ℕ) (s : Backend) → (watch now s).next_id ≡ s.next_id
unfolding watch
watch-next_id now s =
    watch_retry-next_id _ _
    ∙ watch_pending-next_id _ _
    ∙ heartbeat-next_id now s.last_run (record s { last_run = some now })

pub reconcile_redis-next_id :
    (now : ℕ) (s : Backend) → (reconcile_redis now s).1.next_id ≡ s.next_id
unfolding reconcile_redis
reconcile_redis-next_id now s = requeue_due-next_id _ _ _ ∙ reinsert_overdue-next_id _ 0 s

dispatch_job-next_id : (n : ℕ) (s : Backend) → (dispatch_job n s).next_id ≡ s.next_id
unfolding dispatch_job send_job remove_job
dispatch_job-next_id n s = ground arith

dispatch_all-next_id : (ns : List ℕ) (s : Backend) → (dispatch_all ns s).next_id ≡ s.next_id
unfolding dispatch_all
dispatch_all-next_id [] s = refl
dispatch_all-next_id (n ∷ ns) s =
    dispatch_all-next_id ns (dispatch_job n s) ∙ dispatch_job-next_id n s

pub dispatch-next_id : (now : ℕ) (s : Backend) → (dispatch now s).next_id ≡ s.next_id
unfolding dispatch
dispatch-next_id now s = dispatch_all-next_id (get_ready_jobs now s) s

pub requeue_job-next_id : (n : ℕ) (s : Backend) → (requeue_job n s).1.next_id ≡ s.next_id
unfolding requeue_job send_job
requeue_job-next_id n s = ground arith

record_failure-next_id :
    (now : ℕ) (job : Job) (e : String) (s : Backend)
    → (record_failure now job e s).next_id ≡ s.next_id
unfolding record_failure
record_failure-next_id now job e s = grind (arith, publish-next_id)

retry_or_fail-next_id :
    (now : ℕ) (job : Job) (e : String) (s : Backend)
    → (retry_or_fail now job e s).next_id ≡ s.next_id
unfolding retry_or_fail
retry_or_fail-next_id now job e s = grind (arith, publish-next_id)

attempt-next_id :
    (out : Outside) (now : ℕ) (job : Job) (s : Backend)
    → (attempt out now job s).next_id ≡ s.next_id
unfolding attempt
attempt-next_id out now job s = grind (arith, record_failure-next_id, retry_or_fail-next_id)

behind_limiter-next_id :
    (out : Outside) (now : ℕ) (job : Job) (s : Backend)
    → (behind_limiter out now job s).next_id ≡ s.next_id
unfolding behind_limiter
behind_limiter-next_id out now job s = grind (arith, attempt-next_id out now job, publish-next_id)

consume_job-next_id :
    (out : Outside) (t : Times) (job : Job) (s : Backend)
    → (consume_job out t job s).next_id ≡ s.next_id
unfolding consume_job allow_type clear_cancellation
consume_job-next_id out t job s =
    grind (arith, behind_limiter-next_id out t.now job, publish-next_id)

pub consume-next_id :
    (out : Outside) (t : Times) (m : Message) (s : Backend)
    → (consume out t m s).next_id ≡ s.next_id
unfolding consume
consume-next_id out t (garbage text) s = refl
consume-next_id out t (id_text n) s = grind (arith, consume_job-next_id)
