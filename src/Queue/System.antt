-- ===== src/Queue/System.antt =====
-- The services of the application on their one state: the requests of the controllers, the calls of
-- the consumer, and the runs of the timers, as events in the order in which they happen. An event
-- carries the readings of the clock that its operation makes.
pub mod Table
pub mod Life
pub mod Rows
pub mod Steps
pub mod Sends
pub mod Messages
pub mod Creation
pub mod Ids
pub mod Course
pub mod Watching
pub mod Sending
pub mod Progress
use job_queue_event_processi.Prelude.{ℕ, String, List, [], ◌∷◌}
use job_queue_event_processi.Queue.State.{Message, Backend, cancel_job}
use job_queue_event_processi.Queue.Executor.{Outside}
use job_queue_event_processi.Queue.Consumer.{Times, consume}
use job_queue_event_processi.Queue.Dispatcher.{dispatch}
use job_queue_event_processi.Queue.Watcher.{watch, trigger_recovery}
use job_queue_event_processi.Queue.Service.{Readings, JobRequest, create_job}
use job_queue_event_processi.Queue.Admin.{reconcile_redis, requeue_job}
use job_queue_event_processi.Queue.Consumer

-- A message may be delivered again, so `received` takes any message.
pub data Event : Type 0 where
  created : Readings → (key : String) → JobRequest → Event
  cancel_asked : (now id : ℕ) → Event
  received : Times → Message → Event
  dispatched watched recovered reconciled : (now : ℕ) → Event
  requeued : (id : ℕ) → Event
  circuit_reset : (type : String) → Event

module _ (at_time : ℕ → ℕ → ℕ → ℕ → ℕ) (out : Outside) where
  unfoldable pub step : Event → Backend → Backend
  step (created clock key request) s = (create_job at_time clock key request s).1
  step (cancel_asked now id) s = cancel_job now id s
  step (received t m) s = consume out t m s
  step (dispatched now) s = dispatch now s
  step (watched now) s = watch now s
  step (recovered now) s = (trigger_recovery now s).1
  step (reconciled now) s = (reconcile_redis now s).1
  step (requeued id) s = (requeue_job id s).1
  step (circuit_reset type) s = Consumer.reset_circuit type s

  unfoldable pub run : List Event → Backend → Backend
  run [] s = s
  run (e ∷ es) s = run es (step e s)
