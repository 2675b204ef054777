-- ===== src/Agent/Models.antt =====
-- models.py and config.py. A text is a list of code points, as Python has it; a confidence is in
-- hundredths, also the one that the language model answers with.
use job_queue_event_processi.Prelude.{
  ℕ, ◌==◌, Bool, true, false, ◌&&◌, Option, none, some, List, [], ◌∷◌,
}
use job_queue_event_processi.Healer.Text.{Text}

-- The settings that decide what is done; `llm` is whether an API key is set.
pub record Settings : Type 0 where
  pub auto_execute : Bool
  pub min_confidence : ℕ
  pub dry_run : Bool
  pub dedup_ttl_seconds : ℕ
  pub self_healer_enabled : Bool
  pub llm : Bool

abbrev pub default_settings : Settings
default_settings = record {
  auto_execute = true;
  min_confidence = 75;
  dry_run = false;
  dedup_ttl_seconds = 300;
  self_healer_enabled = true;
  llm = false;
}

pub record SelfHealerIncident : Type 0 where
  pub type : Text
  pub severity : Text
  pub title : Text
  pub job_id : Text
  pub job_type : Text
  pub evidence : Text

pub record SelfHealerPlan : Type 0 where
  pub strategy : Text
  pub action : Text
  pub dry_run : Bool
  pub steps : List Text
  pub verification_checks : List Text

pub record SelfHealerOutput : Type 0 where
  pub incident : SelfHealerIncident
  pub plan : SelfHealerPlan

-- `plan` is what the agent reads of the dictionary: its entry for the strategy, or `none` for no
-- dictionary or an empty one. Attributes are only passed on.
pub record IncidentPayload : Type 0 where
  pub incident_id : Option Text
  pub type : Text
  pub severity : Text
  pub title : Text
  pub job_id : Option Text
  pub job_type : Option Text
  pub evidence : Text
  pub source : Text
  pub timestamp : Option ℕ
  pub attributes : List (Text × Text)
  pub plan : Option (Option Text)
  pub self_healer : Option SelfHealerOutput

-- `s or None`.
abbrev pub filled : Text → Option Text
filled [] = none
filled (c ∷ cs) = some (c ∷ cs)

-- Where Python tests an optional text for truth.
abbrev pub given : Option Text → Option Text
given none = none
given (some s) = filled s

-- `s or t`.
abbrev pub or_else : Text → Text → Text
or_else [] t = t
or_else (c ∷ cs) t = c ∷ cs

unfoldable pub from_self_healer : SelfHealerOutput → (source : Text) → IncidentPayload
from_self_healer output source = record {
  incident_id = none;
  type = output.incident.type;
  severity = output.incident.severity;
  title = output.incident.title;
  job_id = filled output.incident.job_id;
  job_type = filled output.incident.job_type;
  evidence = output.incident.evidence;
  source = source;
  timestamp = none;
  attributes = [];
  plan = some (some output.plan.strategy);
  self_healer = some output;
}

pub record AnalysisResult : Type 0 where
  pub root_cause : Text
  pub impact : Text
  pub recommended_action : Text
  pub confidence : ℕ
  pub reasoning : Text
  pub used_llm : Bool
  pub strategy : Option Text

-- Of `params` the executor reads the job id and the job type, which the agent never sets.
pub record PlannedAction : Type 0 where
  pub action : Text
  pub endpoint : Option Text
  pub job_id : Option Text
  pub auto_execute : Bool
  pub confidence : ℕ
  pub rationale : Text
  pub strategy : Option Text
  pub steps : List Text
  pub verification_checks : List Text

pub record ExecutionResult : Type 0 where
  pub action : Text
  pub success : Bool
  pub message : Text
  pub details : List Text
  pub dry_run : Bool

pub record AgentRunResult : Type 0 where
  pub incident_id : Text
  pub incident_type : Text
  pub analysis : AnalysisResult
  pub plan : PlannedAction
  pub execution : ExecutionResult
  pub escalated : Bool
  pub self_healer_strategy : Option Text

-- Equality of texts.
unfoldable pub same_text : Text → Text → Bool
same_text [] [] = true
same_text (c ∷ cs) (d ∷ ds) = c == d && same_text cs ds
same_text _ _ = false
