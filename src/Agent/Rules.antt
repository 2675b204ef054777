-- ===== src/Agent/Rules.antt =====
-- rules/engine.py: what the agent's policy says of each action, and the analysis and the plan that
-- follow from the self-healer's output or, without it, from the incident's type.
use job_queue_event_processi.Prelude.{
  ℕ, ltb, max, Bool, true, false, ◌||◌, if◌then◌else◌, Option, none, some, List, [], ◌∷◌, ◌++◌,
  take,
}
use job_queue_event_processi.Healer.Text.{Text, codes}
use job_queue_event_processi.Agent.Models.{
  SelfHealerPlan, SelfHealerOutput, IncidentPayload, AnalysisResult, PlannedAction, same_text,
  given, or_else,
}

pub record Policy : Type 0 where
  pub endpoint : Option Text
  pub auto_execute : Bool
  pub confidence : ℕ

abbrev pub recover : Text
recover = codes "RECOVER_MISSED_SCHEDULE_WINDOWS"

abbrev pub reconcile : Text
reconcile = codes "RECONCILE_REDIS_DELAY_QUEUE"

abbrev pub wait : Text
wait = codes "WAIT_FOR_RETRY_WINDOW"

abbrev pub pause : Text
pause = codes "PAUSE_AND_ESCALATE_JOB_TYPE"

abbrev pub verify : Text
verify = codes "VERIFY_RETRY_OR_FINAL_STATE"

abbrev pub alert : Text
alert = codes "ALERT_OPERATOR"

abbrev pub recover_path : Text
recover_path = codes "/admin/watcher/recover"

abbrev pub reconcile_path : Text
reconcile_path = codes "/admin/redis/reconcile"

abbrev pub executed : (path : Text) → ℕ → Policy
executed path confidence = record {
  endpoint = some path;
  auto_execute = true;
  confidence = confidence;
}

abbrev pub watched : ℕ → Policy
watched confidence = record { endpoint = none; auto_execute = false; confidence = confidence }

-- `ACTION_POLICY.get(action, ACTION_POLICY["ALERT_OPERATOR"])`.
unfoldable pub action_policy : Text → Policy
action_policy action =
    if same_text action recover
    then executed recover_path 95
    else if same_text action reconcile
    then executed reconcile_path 90
    else if same_text action wait
    then watched 85
    else if same_text action pause
    then watched 80
    else if same_text action verify
    then watched 75
    else watched 50

-- `SEVERITY_CONFIDENCE.get(severity, 0.7)`.
unfoldable pub severity_confidence : Text → ℕ
severity_confidence severity =
    if same_text severity (codes "CRITICAL")
    then 90
    else if same_text severity (codes "HIGH")
    then 85
    else if same_text severity (codes "MEDIUM")
    then 80
    else 70

-- `'; '.join(steps)`.
abbrev pub joined : List Text → Text
joined [] = []
joined (step ∷ []) = step
joined (step ∷ next ∷ steps) = step ++ (codes "; " ++ joined (next ∷ steps))

abbrev pub steps_part : List Text → Text
steps_part [] = []
steps_part (step ∷ steps) = codes " | Steps: " ++ joined (take 2 (step ∷ steps))

unfoldable pub reasoning_of : SelfHealerPlan → Text
reasoning_of plan =
    codes "Strategy: "
    ++ (plan.strategy ++ (codes " | Action: " ++ (plan.action ++ steps_part plan.steps)))

-- The job that a plan is to verify.
abbrev pub verified_job : (action : Text) → (job_id : Option Text) → Option Text
verified_job action job_id = if same_text action verify then given job_id else none

unfoldable pub plan_from_self_healer : SelfHealerOutput → AnalysisResult → PlannedAction
plan_from_self_healer output analysis = record {
  action = output.plan.action;
  endpoint = (action_policy output.plan.action).endpoint;
  job_id = verified_job output.plan.action (some output.incident.job_id);
  auto_execute = (action_policy output.plan.action).auto_execute;
  confidence = analysis.confidence;
  rationale = reasoning_of output.plan;
  strategy = some output.plan.strategy;
  steps = output.plan.steps;
  verification_checks = output.plan.verification_checks;
}

unfoldable pub plan_with_rules : AnalysisResult → IncidentPayload → PlannedAction
plan_with_rules analysis incident = elim incident.self_healer [
  | some output ↦ plan_from_self_healer output analysis
  | none ↦ record {
    action = analysis.recommended_action;
    endpoint = (action_policy analysis.recommended_action).endpoint;
    job_id = verified_job analysis.recommended_action incident.job_id;
    auto_execute = (action_policy analysis.recommended_action).auto_execute;
    confidence = analysis.confidence;
    rationale = analysis.reasoning;
    strategy = none;
    steps = [];
    verification_checks = [];
  }
]

-- `upper` is Python's `str.upper` and `show` prints a number.
module _ (upper : Text → Text) (show : ℕ → Text) where
  -- `health` is the number of overdue jobs that the back end reports.
  unfoldable pub impact_of : (severity : Text) → (health : Option ℕ) → Text
  impact_of severity health =
      if same_text (upper severity) (codes "CRITICAL") || same_text (upper severity) (codes "HIGH")
      then codes "High impact on job processing reliability"
      else elim health [
        | none ↦ codes "Operational incident detected"
        | some overdue ↦
            if ltb 0 overdue
            then show overdue ++ codes " overdue scheduled jobs in system"
            else codes "Operational incident detected"
      ]

  unfoldable pub analyze_from_self_healer : SelfHealerOutput → Option ℕ → AnalysisResult
  analyze_from_self_healer output health = record {
    root_cause = or_else output.incident.title output.incident.evidence;
    impact = impact_of output.incident.severity health;
    recommended_action = output.plan.action;
    confidence =
        max (action_policy output.plan.action).confidence
          (severity_confidence (upper output.incident.severity));
    reasoning = reasoning_of output.plan;
    used_llm = false;
    strategy = some output.plan.strategy;
  }

  -- `_fallback_action`.
  unfoldable pub fallback_action : (incident_type : Text) → Text
  fallback_action incident_type =
      let name = upper incident_type in
      if same_text name (codes "WATCHER_GAP")
      then recover
      else if same_text name (codes "REDIS_DISPATCH_ANOMALY")
      then reconcile
      else if same_text name (codes "RATE_LIMITED_JOB")
      then wait
      else if same_text name (codes "CIRCUIT_OPEN")
      then pause
      else if same_text name (codes "JOB_EXECUTION_FAILED")
      then verify
      else alert

  unfoldable pub analyze_with_rules : IncidentPayload → Option ℕ → AnalysisResult
  analyze_with_rules incident health = elim incident.self_healer [
    | some output ↦ analyze_from_self_healer output health
    | none ↦ record {
      root_cause = or_else incident.title (or_else incident.evidence incident.type);
      impact = impact_of incident.severity health;
      recommended_action = fallback_action incident.type;
      confidence = (action_policy (fallback_action incident.type)).confidence;
      reasoning = codes "Fallback rule for " ++ incident.type;
      used_llm = false;
      strategy = none;
    }
  ]
