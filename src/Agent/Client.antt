-- ===== src/Agent/Client.antt =====
-- clients/job_queue.py: the agent's calls to the back end. `S` is the state that the calls meet.
use job_queue_event_processi.Prelude.{ℕ, zero, suc, Bool, Option, none, some, List, ◌++◌}
use job_queue_event_processi.Healer.Text.{Text, codes}
use job_queue_event_processi.Agent.Rules.{recover_path, reconcile_path}

-- What the agent reads of an administrator's answer.
pub record Reply : Type 0 where
  pub success : Option Bool
  pub message : Option Text
  pub details : Option (List Text)

-- The answer to the request for a job, with its status if it has one.
pub data JobReply : Type 0 where
  found : (status : Option Text) → JobReply
  missing failed : JobReply

-- One try of a request. A `post` that fails may have changed the state all the same; the requests
-- that only read do not change it.
pub record Service (S : Type 0) : Type 0 where
  pub post : (path : Text) → S → Option Reply × S
  pub health : S → Option ℕ
  pub job : (id : Text) → S → JobReply

module _ {S : Type 0} (service : Service S) where
  -- `@retry(stop=stop_after_attempt(n))`, with `none` for the error that it raises in the end.
  unfoldable pub retry : (attempts : ℕ) → (path : Text) → S → Option Reply × S
  retry zero path s = (none, s)
  retry (suc n) path s =
      let r = service.post path s in
      elim r.0 [ some reply ↦ (some reply, r.1) | none ↦ retry n path r.1 ]

  -- `_post`.
  unfoldable pub post : (path : Text) → S → Option Reply × S
  post = retry 3

  unfoldable pub recover_watcher : S → Option Reply × S
  recover_watcher = post recover_path

  unfoldable pub reconcile_redis : S → Option Reply × S
  reconcile_redis = post reconcile_path

  unfoldable pub requeue_job : (job_id : Text) → S → Option Reply × S
  requeue_job job_id = post (codes "/admin/jobs/" ++ (job_id ++ codes "/requeue"))

  unfoldable pub reset_circuit : (job_type : Text) → S → Option Reply × S
  reset_circuit job_type = post (codes "/admin/circuit/" ++ (job_type ++ codes "/reset"))
