-- ===== src/Agent/Healing.antt =====
-- clients/self_healer.py: the calls of the self-healer's program. A text that a run of it prints is
-- taken by lines.
use job_queue_event_processi.Prelude.{
  Bool, Option, none, some, true, false, ◌&&◌, if◌then◌else◌, List, [], ◌∷◌, ◌++◌,
}
use job_queue_event_processi.Healer.Text.{Text, codes, starts_with}
use job_queue_event_processi.Agent.Models.{
  Settings, SelfHealerOutput, IncidentPayload, from_self_healer,
}
use job_queue_event_processi.Agent.Executor.{ends_with}

-- The program and Python's library: whether the file is there, what a run prints for an input
-- (`none` where it takes too long), `str.splitlines`, `str.strip`, and `json.loads` with the check of
-- the fields.
pub record Program : Type 0 where
  pub is_file : Bool
  pub run : (input : Text) → Option Text
  pub splitlines : Text → List Text
  pub strip : Text → Text
  pub parse : Text → Option SelfHealerOutput

module _ (settings : Settings) (program : Program) where
  unfoldable pub is_available : Bool
  is_available = settings.self_healer_enabled && program.is_file

  -- `_parse_line`.
  unfoldable pub parse_line : Text → Option SelfHealerOutput
  parse_line line =
      if starts_with (codes "{") (program.strip line)
      then program.parse (program.strip line)
      else none

  abbrev pub first_parsed : List Text → Option SelfHealerOutput
  first_parsed [] = none
  first_parsed (line ∷ lines) = elim (parse_line line) [
    | some output ↦ some output
    | none ↦ first_parsed lines
  ]

  -- `_parse_all` of the lines.
  abbrev pub all_parsed : List Text → List SelfHealerOutput
  all_parsed [] = []
  all_parsed (line ∷ lines) = elim (parse_line line) [
    | some output ↦ output ∷ all_parsed lines
    | none ↦ all_parsed lines
  ]

  abbrev pub ended : Text → Text
  ended line = if ends_with (b'\n' ∷ []) line then line else line ++ (b'\n' ∷ [])

  -- `analyze_log_line`; the outer `none` where it raises an error.
  unfoldable pub analyze_log_line : Text → Option (Option SelfHealerOutput)
  analyze_log_line line =
      if is_available
      then (elim (program.run (ended line)) [
        | none ↦ none
        | some stdout ↦ some (first_parsed (program.splitlines stdout))
      ])
      else some none

  abbrev pub payload : List Text → Text
  payload [] = []
  payload (line ∷ lines) = ended line ++ payload lines

  -- `analyze_log_lines`.
  unfoldable pub analyze_log_lines : List Text → Option (List SelfHealerOutput)
  analyze_log_lines lines =
      if is_available
      then (elim (program.run (payload lines)) [
        | none ↦ none
        | some stdout ↦ some (all_parsed (program.splitlines stdout))
      ])
      else some []

  abbrev pub has_plan : IncidentPayload → Bool
  has_plan incident = elim incident.self_healer [
    | some output ↦ true
    | none ↦ elim incident.plan [ some strategy ↦ true | none ↦ false ]
  ]

  abbrev pub enriched : IncidentPayload → Option SelfHealerOutput → IncidentPayload
  enriched incident none = incident
  enriched incident (some output) = record (from_self_healer output incident.source) {
    incident_id = incident.incident_id;
    timestamp = incident.timestamp;
    attributes = incident.attributes;
  }

  -- `enrich_incident`.
  unfoldable pub enrich_incident : IncidentPayload → Option IncidentPayload
  enrich_incident incident = if has_plan incident then some incident else elim incident.evidence [
    | [] ↦ some incident
    | c ∷ cs ↦ elim (analyze_log_line (c ∷ cs)) [
      | none ↦ none
      | some output ↦ some (enriched incident output)
    ]
  ]
