-- ===== src/Tests/Healing.antt =====
-- The theorems of the self-healer and of the agent at concrete inputs.
use text.Mathlib.TextEquality.{eq_iff}
use job_queue_event_processi.Prelude.{
  ℕ, suc, ◌≡◌, refl, String, Bool, true, false, Option, none, some, inr, List, [], ◌∷◌, ◌++◌, arith,
  if◌then◌else◌,
}
use job_queue_event_processi.Queue.Job.{Job}
use job_queue_event_processi.Queue.Admin.{ActionResult}
use job_queue_event_processi.Queue.Api.{Operation}
use job_queue_event_processi.Queue.Api.Keys.{IsWrong}
use job_queue_event_processi.Healer.Text.{Text, codes, strip, contains}
use job_queue_event_processi.Healer.Detectors.Lines.{limited_line, limited_line_detected}
use job_queue_event_processi.Healer.Domain.{Incident, rate_limited_job, watcher_gap, high}
use job_queue_event_processi.Healer.Detectors.{default_chain, watcher_gap_detector, base_incident}
use job_queue_event_processi.Healer.Detectors.Order.{
  signals, first_signal, Detected, title_of, default_chain_decides,
}
use job_queue_event_processi.Healer.Planner.{plan, default_strategies, watcher_recovery, make_plan}
use job_queue_event_processi.Healer.Json.{escape_json, write}
use job_queue_event_processi.Healer.Json.Reader.{readable, read_string, read_string-escape_json}
use job_queue_event_processi.Healer.Text.Search.{all_of}
use job_queue_event_processi.Healer.Main.{process_line}
use job_queue_event_processi.Agent.Models.{default_settings, SelfHealerOutput, IncidentPayload}
use job_queue_event_processi.Agent.Client.{missing, Service}
use job_queue_event_processi.Agent.Orchestrator.{
  Outside, AgentState, process_incident, process_self_healer_output,
}
use job_queue_event_processi.Agent.Orchestrator.History.{Recalls, process_all, process_all-Recalls}
use job_queue_event_processi.Agent.Orchestrator.Recovery.{healed}
use job_queue_event_processi.Agent.EndToEnd.{line_healed}
use job_queue_event_processi.Agent.Backend.Recovery.{served, wrong_key_harmless}
use job_queue_event_processi.Agent.Backend.Repair.{AreWaiting, gap_line_repaired}
use job_queue_event_processi.Agent.Observer.{Seen}
use job_queue_event_processi.Agent.Observer.Recent.{
  Ascending, observed, verdicts, observed-verdicts,
}
use job_queue_event_processi.Tests.Jobs.{missed_state}

abbrev gap_line : Text
gap_line = codes "10:00:00 WARN Watcher gap detected, triggering recovery"

abbrev hit_line : Text
hit_line = codes "WARN Rate limit hit for type=EMAIL, scheduling retry jobId=42"

default_chain_decides_example :
    Detected (first_signal signals hit_line) hit_line (default_chain hit_line)
default_chain_decides_example = default_chain_decides hit_line

read_string-escape_json_example :
    read_string false (escape_json (codes "a \"b\"\n") ++ (34 ∷ codes "}"))
    ≡ (if all_of readable (codes "a \"b\"\n") then some (codes "a \"b\"\n", codes "}") else none)
read_string-escape_json_example = read_string-escape_json (codes "a \"b\"\n") (codes "}")

no_gap :
    contains
      (limited_line (codes "WARN ") (codes "EMAIL") (codes "42"))
      (codes "Watcher gap detected")
    ≡ false
unfolding contains strip
no_gap = refl

limited_line_detected_example :
    (i : Incident) × (default_chain (limited_line (codes "WARN ") (codes "EMAIL") (codes "42"))
      ≡ some i)
    × (i.type ≡ rate_limited_job)
    × (i.job_type ≡ codes "EMAIL")
    × (i.job_id ≡ codes "42")
limited_line_detected_example =
    limited_line_detected (codes "WARN ") (codes "EMAIL") (codes "42") refl refl refl
      (λ e. absurd (ground (arith, e))) (λ e. absurd (ground (arith, e))) no_gap

-- The self-healer's program on a single line.
abbrev outside : Outside
outside = record {
  program = record {
    is_file = true;
    run = λ input. process_line default_chain default_strategies input;
    splitlines = λ s. s ∷ [];
    strip = λ s. s;
    parse = λ document. none;
  };
  llm = λ incident health. none;
  upper = λ s. s;
  show = λ n. codes "some";
  trouble = codes "error";
  below = λ confidence threshold. [];
}

-- A service that counts the requests that change something.
abbrev counting : Service ℕ
counting = record {
  post = λ path n. (some (record { success = none; message = none; details = none }), suc n);
  health = λ n. none;
  job = λ id n. missing;
}

abbrev fresh : {S : Type 0} → S → AgentState S
fresh s = record { history = []; world = s }

abbrev gap_incident : IncidentPayload
gap_incident = record {
  incident_id = none;
  type = codes "WATCHER_GAP";
  severity = codes "HIGH";
  title = [];
  job_id = none;
  job_type = none;
  evidence = [];
  source = codes "app";
  timestamp = none;
  attributes = [];
  plan = none;
  self_healer = none;
}

abbrev two_incidents : List (Text × ℕ × IncidentPayload)
two_incidents = (codes "1", 5, gap_incident) ∷ (codes "2", 6, gap_incident) ∷ []

process_all-Recalls_example :
    let r = process_all counting default_settings outside two_incidents (fresh 0) in
    Recalls counting default_settings outside r.1.history ([] ++ r.0)
process_all-Recalls_example =
    process_all-Recalls counting default_settings outside two_incidents (fresh 0) [] refl

abbrev arrivals : Seen
arrivals = (codes "a", 10) ∷ (codes "a", 200) ∷ (codes "b", 300) ∷ (codes "a", 400) ∷ []

arrivals-Ascending : Ascending 300 0 arrivals 500
arrivals-Ascending = (omega arith, (omega arith, (omega arith, (omega arith, omega arith))))

observed-verdicts_example : observed 300 [] arrivals ≡ verdicts 300 [] arrivals
observed-verdicts_example = observed-verdicts 300 500 arrivals arrivals-Ascending

gap_signal : first_signal signals gap_line ≡ some watcher_gap
unfolding contains strip
gap_signal = refl

abbrev gap_report : Incident
gap_report = record {
  type = watcher_gap;
  severity = high;
  title = title_of watcher_gap;
  job_id = [];
  job_type = [];
  evidence = gap_line;
  reason = [];
}

gap_detected : default_chain gap_line ≡ some gap_report
unfolding default_chain watcher_gap_detector base_incident contains strip title_of
gap_detected = refl

-- The document of the watcher's gap, taken in.
abbrev gap_output : SelfHealerOutput
gap_output = record {
  incident = record {
    type = codes "WATCHER_GAP";
    severity = codes "HIGH";
    title = codes (title_of watcher_gap);
    job_id = [];
    job_type = [];
    evidence = gap_line;
  };
  plan = record {
    strategy = codes "WatcherRecoveryStrategy";
    action = codes "RECOVER_MISSED_SCHEDULE_WINDOWS";
    dry_run = true;
    steps = [];
    verification_checks = [];
  };
}

gap_action : gap_output.plan.action ≡ codes (plan default_strategies gap_report).action
unfolding plan default_strategies watcher_recovery make_plan
gap_action = refl

line_healed_example :
    (process_line default_chain default_strategies gap_line
      ≡ some (write gap_report (plan default_strategies gap_report)))
    × ((process_self_healer_output counting default_settings outside
          (codes "1")
          5
          gap_output
          (fresh 0)).1.world
        ≡ healed counting default_settings outside watcher_gap 0)
line_healed_example =
    line_healed counting default_settings outside refl refl (omega arith) watcher_gap gap_line
      gap_signal gap_report gap_detected gap_output gap_action (codes "1") 5 (fresh 0)

abbrev key_set : String → Bool
key_set t = false

abbrev no_texts : ActionResult → Option Text × Option (List Text)
no_texts a = (none, none)

abbrev no_route : Text → Option Operation
no_route path = none

abbrev no_number : Text → Option ℕ
no_number id = none

abbrev queued_status : Job → Text
queued_status job = codes "QUEUED"

gap_line_repaired_example :
    AreWaiting 1000 missed_state
      (process_self_healer_output
        (served key_set "secret" "secret" 1000 no_texts no_route no_number queued_status)
        default_settings
        outside
        (codes "1")
        5
        gap_output
        (fresh missed_state)).1.world
gap_line_repaired_example =
    gap_line_repaired key_set "secret" 1000 no_texts no_route no_number queued_status refl
      default_settings outside refl refl (omega arith) gap_line gap_signal gap_report gap_detected
      gap_output gap_action (codes "1") 5 (fresh missed_state)

IsWrong-guess : IsWrong key_set "secret" "admin"
IsWrong-guess = inr (λ e. ground (arith, (eq_iff "secret" "admin").1 e))

wrong_key_harmless_example :
    (process_incident
      (served key_set "secret" "admin" 1000 no_texts no_route no_number queued_status)
      default_settings
      outside
      (codes "1")
      5
      gap_incident
      (fresh missed_state)).1.world
    ≡ missed_state
wrong_key_harmless_example =
    wrong_key_harmless key_set "secret" "admin" 1000 no_texts no_route no_number queued_status
      IsWrong-guess default_settings outside (codes "1") 5 gap_incident (fresh missed_state)
