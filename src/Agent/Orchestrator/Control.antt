-- ===== src/Agent/Orchestrator/Control.antt =====
-- What an incident can make the agent do to the back end.
use job_queue_event_processi.Prelude.{
  ℕ, ltb, ◌≤◌, ◌≡◌, ◌⊎◌, inl, inr, refl, sym, subst, Bool, true, false, if◌then◌else◌, Option, none,
  some, Option-cases, arith,
}
use job_queue_event_processi.Healer.Text.{Text}
use job_queue_event_processi.Agent.Models.{
  Settings, IncidentPayload, AnalysisResult, PlannedAction, AgentRunResult, SelfHealerOutput,
  same_text, given,
}
use job_queue_event_processi.Agent.Rules.{
  Policy, executed, watched, recover, reconcile, wait, pause, verify, recover_path, reconcile_path,
  action_policy, plan_from_self_healer, plan_with_rules,
}
use job_queue_event_processi.Agent.Client.{Service, post}
use job_queue_event_processi.Agent.Planner.{
  apply_llm_override, first_plan, guard_settings, guard_confidence, plan, get_or,
}
use job_queue_event_processi.Agent.Executor.{execute}
use job_queue_event_processi.Agent.Healing.{enrich_incident}
use job_queue_event_processi.Agent.Orchestrator.{
  Outside, AgentState, analysis_of, plan_of, run_of_incident, process_enriched, process_incident,
}
use job_queue_event_processi.Agent.Executor.Safety.{
  IsPolicy, Step, kept, acted, execute-Step, execute-raised,
}

-- Both branches of a test have a property.
pub pick : {A : Type 0} (P : A → Type 0) (b : Bool) (x y : A) → P x → P y → P (if b then x else y)
pick P true x y h k = h
pick P false x y h k = k

pick_if :
    {A : Type 0} (P : A → Type 0) (b : Bool) (x y : A)
    → (b ≡ true → P x)
    → (b ≡ false → P y)
    → P (if b then x else y)
pick_if P true x y h k = h refl
pick_if P false x y h k = k refl

HasEndpoint : Policy → Type 0
HasEndpoint p =
    (p.endpoint ≡ none) ⊎ ((p.endpoint ≡ some recover_path) ⊎ (p.endpoint ≡ some reconcile_path))

action_policy-HasEndpoint : (action : Text) → HasEndpoint (action_policy action)
unfolding action_policy HasEndpoint
action_policy-HasEndpoint action =
    pick HasEndpoint (same_text action recover) (executed recover_path 95) _ (inr (inl refl)) (
      pick HasEndpoint (same_text action reconcile) (executed reconcile_path 90) _ (inr (inr refl))
        (pick HasEndpoint (same_text action wait) (watched 85) _ (inl refl) (
          pick HasEndpoint (same_text action pause) (watched 80) _ (inl refl) (
            pick HasEndpoint (same_text action verify) (watched 75) (watched 50) (inl refl)
              (inl refl)))))

module _ {S : Type 0} (service : Service S) (settings : Settings) (o : Outside) where
  -- The plan is the policy's, and is carried out only where the settings allow it and the confidence
  -- is enough.
  abbrev IsAllowed : PlannedAction → Type 0
  IsAllowed p =
      p.auto_execute ≡ true
      → (settings.auto_execute ≡ true) × (settings.min_confidence ≤ p.confidence)

  abbrev first_plan_of : IncidentPayload → AnalysisResult → PlannedAction
  first_plan_of = first_plan settings o.upper o.show o.below o.llm

  first_plan-IsPolicy :
      (i : IncidentPayload) (h : Option SelfHealerOutput) (a : AnalysisResult)
      → IsPolicy (first_plan_of (record i { self_healer = h }) a)
  unfolding plan_from_self_healer plan_with_rules HasEndpoint
  first_plan-IsPolicy i none a = action_policy-HasEndpoint a.recommended_action
  first_plan-IsPolicy i (some output) a = action_policy-HasEndpoint output.plan.action

  plan-IsPolicy :
      (i : IncidentPayload) (a : AnalysisResult)
      → IsPolicy (plan settings o.upper o.show o.below o.llm i a)
  unfolding plan apply_llm_override HasEndpoint
  plan-IsPolicy i a =
      let first = first_plan_of i a in
      let overridden = apply_llm_override settings o.upper o.show o.below o.llm first a i in
      let p = if a.used_llm then overridden else first in
      let q = guard_settings settings o.upper o.show o.below o.llm p in
      let p-IsPolicy : IsPolicy p =
        pick IsPolicy a.used_llm overridden first
          (action_policy-HasEndpoint (o.upper a.recommended_action))
          (first_plan-IsPolicy i i.self_healer a) in
      let q-IsPolicy : IsPolicy q = pick IsPolicy settings.auto_execute p _ p-IsPolicy p-IsPolicy in
      pick IsPolicy (ltb q.confidence settings.min_confidence) _ q q-IsPolicy q-IsPolicy

  IsOn : PlannedAction → Type 0
  IsOn p = p.auto_execute ≡ true → settings.auto_execute ≡ true

  clash : {A : Type 0} → false ≡ true → A
  clash h = absurd (ground (arith, h))

  guarded-IsAllowed :
      (p : PlannedAction)
      → IsAllowed (
          guard_confidence settings o.upper o.show o.below o.llm
            (guard_settings settings o.upper o.show o.below o.llm p))
  unfolding IsOn
  guarded-IsAllowed p =
      let q = guard_settings settings o.upper o.show o.below o.llm p in
      let q-IsOn : IsOn q =
        pick_if IsOn settings.auto_execute p _ (λ on h. on) (λ off h. clash h) in
      pick_if IsAllowed (ltb q.confidence settings.min_confidence) _ q (λ low h. clash h)
        (λ enough h. (q-IsOn h, ground arith))

  plan-IsAllowed :
      (i : IncidentPayload) (a : AnalysisResult)
      → IsAllowed (plan settings o.upper o.show o.below o.llm i a)
  unfolding plan
  plan-IsAllowed i a = guarded-IsAllowed _

  -- What an incident may make the agent do to the back end, with the run that comes of it: nothing, or
  -- one of the two recoveries where the settings allow it.
  pub data Controlled (r : Option AgentRunResult) (s : S) : S → Type 0 where
    untouched : Controlled r s s
    requested :
        (path : Text) (run : AgentRunResult)
        → (path ≡ recover_path) ⊎ (path ≡ reconcile_path)
        → r ≡ some run
        → settings.dry_run ≡ false
        → settings.auto_execute ≡ true
        → settings.min_confidence ≤ run.plan.confidence
        → Controlled r s (post service path s).1

  Step-Controlled :
      (i : IncidentPayload) (s s' : S) (run : AgentRunResult)
      → run.plan ≡ plan_of service settings o i s
      → Step service settings o.trouble (plan_of service settings o i s) s s'
      → Controlled (some run) s s'
  Step-Controlled i s _ run e kept = untouched
  Step-Controlled i s _ run e (acted path either wet auto) =
      let (on, enough) = plan-IsAllowed i (analysis_of service settings o i s) auto in
      requested path run either refl wet on
        (subst (λ p. settings.min_confidence ≤ p.confidence) (sym e) enough)

  process_enriched-Controlled :
      (id : Text) (i : IncidentPayload) (state : AgentState S)
      → let r = process_enriched service settings o id i state in
        Controlled r.0 state.world r.1.world
  unfolding process_enriched
  process_enriched-Controlled id i state =
      let p = plan_of service settings o i state.world in
      let result = execute service settings o.trouble p state.world in
      elim (Option-cases result.0) [
        | inl raised ↦
            rw (process_enriched, raised)
              (subst (Controlled none state.world)
                (sym (execute-raised service settings o.trouble p state.world raised)) untouched)
        | inr (execution, done) ↦
            rw (process_enriched, done)
              (Step-Controlled i state.world result.1
                (run_of_incident service settings o id i state.world execution) refl
                (execute-Step service settings o.trouble p state.world
                  (plan-IsPolicy i (analysis_of service settings o i state.world))))
      ]

  pub process_incident-Controlled :
      (new_id : Text) (now : ℕ) (incident : IncidentPayload) (state : AgentState S)
      → let r = process_incident service settings o new_id now incident state in
        Controlled r.0 state.world r.1.world
  unfolding process_incident
  process_incident-Controlled new_id now incident state =
      let id = get_or new_id (given incident.incident_id) in
      let named = record incident {
        incident_id = some id;
        timestamp = some (get_or now incident.timestamp);
      } in
      elim (Option-cases (enrich_incident settings o.program named)) [
        | inl raised ↦ rw (process_incident, raised) untouched
        | inr (enriched, done) ↦
            rw (process_incident, done) (process_enriched-Controlled id enriched state)
      ]
