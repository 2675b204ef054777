-- ===== src/Agent/Backend/Repair.antt =====
-- A watcher gap in the log of the back end, repaired on the back end.
use text.Mathlib.TextEquality.{eq_iff}
use job_queue_event_processi.Prelude.{
  ℕ, ◌-◌, ◌≤◌, ◌≡◌, ◌∙◌, refl, sym, ap, subst, String, str_eq, Bool, true, false, Option, some,
  List,
}
use job_queue_event_processi.Queue.Job.{Job}
use job_queue_event_processi.Queue.Repository.{
  find_pending_or_scheduled_in_range, find_retry_in_range,
}
use job_queue_event_processi.Queue.State.{Backend}
use job_queue_event_processi.Queue.Admin.{ActionResult, recover_watcher}
use job_queue_event_processi.Queue.Watcher.{
  recover_scheduled, trigger_recovery, recover_missed_jobs,
}
use job_queue_event_processi.Queue.Watcher.Recovery.{All, is_waiting, recovery_counts}
use job_queue_event_processi.Queue.Api.{
  Operation, watcher_recover, answer, perform, authorize, administer,
}
use job_queue_event_processi.Healer.Text.{Text, codes}
use job_queue_event_processi.Healer.Domain.{Incident, watcher_gap}
use job_queue_event_processi.Healer.Detectors.{default_chain}
use job_queue_event_processi.Healer.Detectors.Order.{signals, first_signal}
use job_queue_event_processi.Healer.Planner.{plan, default_strategies}
use job_queue_event_processi.Agent.Models.{Settings, SelfHealerOutput, same_text}
use job_queue_event_processi.Agent.Rules.{recover_path}
use job_queue_event_processi.Agent.Client.{Reply, Service, retry, post}
use job_queue_event_processi.Agent.Backend.{operation_of, reply_of, post_to_backend}
use job_queue_event_processi.Agent.Backend.Recovery.{served}
use job_queue_event_processi.Agent.EndToEnd.{line_healed}
use job_queue_event_processi.Agent.Orchestrator.{Outside, AgentState, process_self_healer_output}

-- Every job that the recovery at a time looks for in a state has a score in the delay queue of
-- another.
abbrev pub AreWaiting : (now : ℕ) (before after : Backend) → Type 0
AreWaiting now before after =
    let missed = find_pending_or_scheduled_in_range (now - 60000) now 500 before.jobs in
    let s₁ = (recover_scheduled missed 0 before).1 in
    All (is_waiting after) missed
    × All (is_waiting after) (find_retry_in_range (now - 60000) now 500 s₁.jobs)

-- A request that is answered is not tried again.
post-answered :
    {S : Type 0} (service : Service S) (path : Text) (s s' : S) (reply : Reply)
    → service.post path s ≡ (some reply, s')
    → (post service path s).1 ≡ s'
unfolding post retry
post-answered service path s s' reply h =
    let some_reply : (service.post path s).0 ≡ some reply = ap (λ r. r.0) h in
    rw (post, retry, some_reply) (ap (λ r. r.1) h)

module _ (is_blank : String → Bool) (api_key : String) (now : ℕ)
    (texts : ActionResult → Option Text × Option (List Text)) (route : Text → Option Operation)
    (number : Text → Option ℕ) (status : Job → Text) (usable : is_blank api_key ≡ false) where
  administer-right :
      (op : Operation) (s : Backend)
      → administer is_blank api_key api_key op s ≡ (answer (perform op s).0, (perform op s).1)
  unfolding administer authorize
  administer-right op s =
      let right : str_eq api_key api_key ≡ true = (eq_iff api_key api_key).1 refl in
      rw (administer, authorize, usable, right) refl

  recover-answer :
      (s : Backend)
      → let r = recover_watcher now s in
        post_to_backend is_blank api_key api_key now texts route number status recover_path s
        ≡ (reply_of is_blank api_key api_key now texts route number status (answer r.0), r.1)
  unfolding post_to_backend operation_of same_text
  recover-answer s = rw (administer-right (watcher_recover now) s) refl

  post-recover :
      (s : Backend)
      → (post (served is_blank api_key api_key now texts route number status) recover_path s).1
        ≡ (recover_missed_jobs now s).1
  unfolding recover_watcher trigger_recovery
  post-recover s =
      post-answered (served is_blank api_key api_key now texts route number status) recover_path s _
        _ (recover-answer s)

  -- For a line whose first signal is the watcher's gap and the incident that the self-healer detects
  -- in it, on an agent with the back end's key, with execution on, dry-run off and a threshold of at
  -- most 90: behind the run for an output whose action is that of the self-healer's plan, every job
  -- that the watcher's recovery looks for, of the missed and of those to retry, waits in the delay
  -- queue.
  pub gap_line_repaired :
      (settings : Settings) (o : Outside) (on : settings.auto_execute ≡ true)
      (wet : settings.dry_run ≡ false) (low : settings.min_confidence ≤ 90) (line : Text)
      (signal : first_signal signals line ≡ some watcher_gap) (i : Incident)
      (found : default_chain line ≡ some i) (out : SelfHealerOutput)
      (taken_in : out.plan.action ≡ codes (plan default_strategies i).action) (new_id : Text)
      (at : ℕ) (state : AgentState Backend)
      → AreWaiting now state.world
          (process_self_healer_output
            (served is_blank api_key api_key now texts route number status)
            settings
            o
            new_id
            at
            out
            state).1.world
  gap_line_repaired settings o on wet low line signal i found out taken_in new_id at state =
      let service = served is_blank api_key api_key now texts route number status in
      let (prints, healed) =
        line_healed service settings o on wet low watcher_gap line signal i found out taken_in
          new_id at state in
      let (count, missed, retries) = recovery_counts now state.world in
      subst (AreWaiting now state.world) (sym (healed ∙ post-recover state.world)) (missed, retries)
