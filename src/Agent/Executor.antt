-- ===== src/Agent/Executor.antt =====
-- agents/executor.py.
pub mod Safety
use job_queue_event_processi.Prelude.{
  ℕ, zero, suc, ◌==◌, Bool, true, false, not, ◌&&◌, ◌||◌, if◌then◌else◌, Option, none, some, List,
  [], ◌∷◌, ◌++◌, take,
}
use job_queue_event_processi.Healer.Text.{Text, codes, starts_with, run_of}
use job_queue_event_processi.Agent.Models.{
  Settings, PlannedAction, ExecutionResult, same_text, filled, given,
}
use job_queue_event_processi.Agent.Rules.{wait, pause, verify, alert, recover_path, reconcile_path}
use job_queue_event_processi.Agent.Client.{
  Reply, JobReply, found, missing, failed, Service, recover_watcher, reconcile_redis, requeue_job,
  reset_circuit,
}
use job_queue_event_processi.Agent.Planner.{get_or}

abbrev pub ends_with : (token s : Text) → Bool
ends_with token [] = same_text token []
ends_with token (c ∷ cs) = same_text token (c ∷ cs) || ends_with token cs

-- `s.split("/")[n]` of a text with at least that many slashes.
abbrev pub segment : (n : ℕ) → Text → Text
segment zero s = run_of (λ c. not (c == b'/')) s
segment (suc n) [] = []
segment (suc n) (c ∷ cs) =
    let next = segment n cs in let same = segment (suc n) cs in if c == b'/' then next else same

abbrev pub first_given : Option Text → Text → Text
first_given id s = get_or s (given id)

-- A plan that the executor only watches.
abbrev pub is_watched : Text → Bool
is_watched action = same_text action wait || same_text action pause || same_text action alert

abbrev pub has_path : Option Text → Bool
has_path endpoint = elim (given endpoint) [ none ↦ false | some path ↦ true ]

-- `plan.auto_execute and plan.endpoint`.
abbrev pub is_executed : PlannedAction → Bool
is_executed plan = plan.auto_execute && has_path plan.endpoint

abbrev pub result_of : PlannedAction → Bool → Text → List Text → ExecutionResult
result_of plan success message details = record {
  action = plan.action;
  success = success;
  message = message;
  details = details;
  dry_run = false;
}

-- `plan.steps or [plan.rationale]`.
abbrev pub steps_or : List Text → Text → List Text
steps_or [] rationale = rationale ∷ []
steps_or (step ∷ steps) rationale = step ∷ steps

-- `trouble` is the text of an error that a call raises.
module _ {S : Type 0} (service : Service S) (settings : Settings) (trouble : Text) where
  -- `_verify_job_state`; `none` where its request raises an error.
  unfoldable pub verify_job_state : PlannedAction → S → Option ExecutionResult
  verify_job_state plan s = elim (given plan.job_id) [
    | none ↦ some (result_of plan true (codes "No jobId to verify") plan.steps)
    | some id ↦ elim (service.job id s) [
      | failed ↦ none
      | missing ↦ some (
          result_of plan false (codes "Job " ++ (id ++ codes " not found"))
            plan.verification_checks)
      | found status ↦
          let observed = get_or (codes "UNKNOWN") status in
          some (
            result_of plan
              (same_text observed (codes "RETRY")
                || same_text observed (codes "FAILED")
                || same_text observed (codes "COMPLETED"))
              (codes "Verified job " ++ (id ++ (codes " status=" ++ observed)))
              (plan.verification_checks ++ ((codes "observed_status=" ++ observed) ∷ [])))
    ]
  ]

  -- `_dispatch`; `none` where it raises an error.
  unfoldable pub dispatch : PlannedAction → (endpoint : Text) → S → Option Reply × S
  dispatch plan endpoint s =
      if same_text endpoint recover_path
      then recover_watcher service s
      else if same_text endpoint reconcile_path
      then reconcile_redis service s
      else if starts_with (codes "/admin/jobs/") endpoint && ends_with (codes "/requeue") endpoint
      then requeue_job service (first_given plan.job_id (segment 3 endpoint)) s
      else if starts_with (codes "/admin/circuit/") endpoint && ends_with (codes "/reset") endpoint
      then reset_circuit service (segment 3 endpoint) s
      else (none, s)

  abbrev pub concluded : PlannedAction → Option Reply → ExecutionResult
  concluded plan none = result_of plan false trouble []
  concluded plan (some reply) =
      result_of plan (get_or true reply.success) (get_or (codes "Action completed") reply.message)
        (get_or [] reply.details ++ take 2 plan.verification_checks)

  -- `execute`.
  unfoldable pub execute : PlannedAction → S → Option ExecutionResult × S
  execute plan s =
      if settings.dry_run
      then (
        some
            (record (result_of plan true (codes "Dry-run mode: action not executed")
              ((codes "Would call " ++ get_or (codes "None") plan.endpoint) ∷ take 2 plan.steps)) {
                dry_run = true;
              }),
        s,
      )
      else if same_text plan.action verify
      then (verify_job_state plan s, s)
      else if is_watched plan.action
      then (
        some (
            result_of plan true (codes "Monitoring per self-healer strategy; no mutation applied")
              (steps_or plan.steps plan.rationale)),
        s,
      )
      else if not (is_executed plan)
      then (
        some (result_of plan true (codes "No auto-execution required") (plan.rationale ∷ [])),
        s,
      )
      else let r = dispatch plan (get_or [] plan.endpoint) s in (some (concluded plan r.0), r.1)
