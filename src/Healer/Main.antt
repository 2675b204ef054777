-- ===== src/Healer/Main.antt =====
-- main.cpp: the arguments, and the streams and files of log lines. A stream that ends is the list of
-- its lines; a file that is followed does not end.
use job_queue_event_processi.Prelude.{
  Bool, true, str_eq, if◌then◌else◌, String, Option, none, some, List, [], ◌∷◌,
}
use job_queue_event_processi.Healer.Text.{Text}
use job_queue_event_processi.Healer.Detectors.{Detector}
use job_queue_event_processi.Healer.Planner.{HealingStrategy, plan}
use job_queue_event_processi.Healer.Json.{write}

pub record AppConfig : Type 0 where
  pub log_file : String
  pub follow : Bool

-- The loop of `parseArgs` over what follows the program's name; `none` where it prints the usage and
-- exits.
unfoldable pub parse_args : AppConfig → List String → Option AppConfig
parse_args config [] = some config
parse_args config (arg ∷ []) =
    if str_eq arg "--follow"
    then some (record config { follow = true })
    else if str_eq arg "--help"
    then none
    else some config
parse_args config (arg ∷ value ∷ args) =
    let file = parse_args (record config { log_file = value }) args in
    let follow = parse_args (record config { follow = true }) (value ∷ args) in
    let skip = parse_args config (value ∷ args) in
    if str_eq arg "--log-file"
    then file
    else if str_eq arg "--follow"
    then follow
    else if str_eq arg "--help"
    then none
    else skip

-- What `processLine` prints for a line.
unfoldable pub process_line : Detector → List HealingStrategy → Text → Option Text
process_line detector strategies line = elim (detector line) [
  | none ↦ none
  | some incident ↦ some (write incident (plan strategies incident))
]

abbrev pub print : Option Text → List Text → List Text
print none later = later
print (some document) later = document ∷ later

-- What `runStream` prints, and `runFile` up to the end of the file.
unfoldable pub run_stream : Detector → List HealingStrategy → List Text → List Text
run_stream detector strategies [] = []
run_stream detector strategies (line ∷ input) =
    print (process_line detector strategies line) (run_stream detector strategies input)
