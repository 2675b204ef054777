-- ===== src/Agent/Backend.antt =====
-- The agent with the back end that answers it: the requests of clients/job_queue.py reach the
-- operations of AdminController.
pub mod Recovery
pub mod Repair
use job_queue_event_processi.Prelude.{
  ℕ, String, Bool, true, false, if◌then◌else◌, Option, none, some, List,
}
use job_queue_event_processi.Queue.Job.{Job}
use job_queue_event_processi.Queue.State.{Backend}
use job_queue_event_processi.Queue.Admin.{ActionResult}
use job_queue_event_processi.Queue.Api.{
  Response, answer, failure, Operation, watcher_recover, redis_reconcile, administer,
  detailed_health, get_job,
}
use job_queue_event_processi.Healer.Text.{Text}
use job_queue_event_processi.Agent.Models.{same_text}
use job_queue_event_processi.Agent.Rules.{recover_path, reconcile_path}
use job_queue_event_processi.Agent.Client.{Reply, JobReply, found, missing, failed, Service}

-- `api_key` is the back end's key and `key` the agent's. `texts` are the message and the details of
-- an answer, `route` finds the operation of any other path, `number` reads an id, and `status` prints
-- a job's status.
module _ (is_blank : String → Bool) (api_key key : String) (now : ℕ)
    (texts : ActionResult → Option Text × Option (List Text)) (route : Text → Option Operation)
    (number : Text → Option ℕ) (status : Job → Text) where
  unfoldable pub operation_of : Text → Option Operation
  operation_of path =
      if same_text path recover_path
      then some (watcher_recover now)
      else if same_text path reconcile_path
      then some (redis_reconcile now)
      else route path

  -- `raise_for_status` and `response.json()`.
  abbrev pub reply_of : Response ActionResult → Option Reply
  reply_of (failure e) = none
  reply_of (answer a) =
      some (record { success = some a.success; message = (texts a).0; details = (texts a).1 })

  unfoldable pub post_to_backend : Text → Backend → Option Reply × Backend
  post_to_backend path s = elim (operation_of path) [
    | none ↦ (none, s)
    | some op ↦ let r = administer is_blank api_key key op s in (reply_of r.0, r.1)
  ]

  abbrev pub job_reply : Response (Option Job) → JobReply
  job_reply (failure e) = failed
  job_reply (answer none) = missing
  job_reply (answer (some job)) = found (some (status job))

  abbrev pub backend_service : Service Backend
  backend_service = record {
    post = post_to_backend;
    health = λ s. elim (detailed_health is_blank api_key now key s) [
      | failure e ↦ none
      | answer h ↦ some h.overdue_scheduled
    ];
    job = λ id s. elim (number id) [ none ↦ failed | some n ↦ job_reply (get_job n s) ];
  }
