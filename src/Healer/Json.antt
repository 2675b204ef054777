-- ===== src/Healer/Json.antt =====
-- json_writer.cpp: the document that the self-healer prints for an incident and its plan.
pub mod Reader
use job_queue_event_processi.Prelude.{ℕ, ◌==◌, if◌then◌else◌, String, List, [], ◌∷◌, ◌++◌, map}
use job_queue_event_processi.Healer.Text.{Text, codes}
use job_queue_event_processi.Healer.Domain.{Incident, HealingPlan, type_name, severity_name}

-- One byte in `escapeJson`; 92 is the backslash.
abbrev pub escaped : ℕ → Text
escaped ch =
    if ch == 92
    then 92 ∷ 92 ∷ []
    else if ch == 34
    then 92 ∷ 34 ∷ []
    else if ch == 10
    then 92 ∷ b'n' ∷ []
    else if ch == 13
    then 92 ∷ b'r' ∷ []
    else if ch == 9
    then 92 ∷ b't' ∷ []
    else ch ∷ []

unfoldable pub escape_json : Text → Text
escape_json [] = []
escape_json (ch ∷ value) = escaped ch ++ escape_json value

unfoldable pub quoted : Text → Text
quoted value = 34 ∷ (escape_json value ++ (34 ∷ []))

abbrev pub write_more : List Text → Text
write_more [] = codes "]"
write_more (value ∷ values) = codes "," ++ (quoted value ++ write_more values)

unfoldable pub write_string_array : List Text → Text
write_string_array [] = codes "[]"
write_string_array (value ∷ values) = codes "[" ++ (quoted value ++ write_more values)

-- A key with the opening quote, the printed value and the closing quote.
abbrev pub put : (key : String) → Text → Text → Text
put key value rest = codes key ++ (value ++ (34 ∷ rest))

-- `JsonWriter::write`.
unfoldable pub write : Incident → HealingPlan → Text
write incident plan = put "{\"incident\":{\"type\":\"" (codes (type_name incident.type)) (
    put ",\"severity\":\"" (codes (severity_name incident.severity)) (
      put ",\"title\":\"" (escape_json (codes incident.title)) (
        put ",\"jobId\":\"" (escape_json incident.job_id) (
          put ",\"jobType\":\"" (escape_json incident.job_type) (
            put ",\"evidence\":\"" (escape_json incident.evidence) (
              put "},\"plan\":{\"strategy\":\"" (escape_json (codes plan.strategy_name)) (
                put ",\"action\":\"" (escape_json (codes plan.action)) (
                  codes ",\"dryRun\":"
                  ++ (codes (if plan.dry_run then "true" else "false")
                      ++ (codes ",\"steps\":"
                          ++ (write_string_array (map codes plan.steps)
                              ++ (codes ",\"verificationChecks\":"
                                  ++ (write_string_array (map codes plan.verification_checks)
                                      ++ codes "}}")))))))))))))
