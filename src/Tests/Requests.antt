-- ===== src/Tests/Requests.antt =====
-- The theorems on requests at concrete inputs.
use text.Mathlib.TextEquality.{eq_iff}
use job_queue_event_processi.Prelude.{
  ℕ, ◌≡◌, inr, String, str_eq, Bool, true, false, Option, none, some, List, [], ◌∷◌, arith,
}
use job_queue_event_processi.Queue.Service.{Readings}
use job_queue_event_processi.Queue.Api.{Body, Operation, jobs_requeue, circuit_reset}
use job_queue_event_processi.Queue.Api.Keys.{
  AreWrong, AreRefused, administer_all, wrong_keys_refused,
}
use job_queue_event_processi.Tests.Jobs.{state_of}

-- Of the texts only "09:30" has the form of a time.
abbrev match_half_past : String → Option (ℕ × ℕ)
match_half_past t = elim (str_eq t "09:30") [ true ↦ some (9, 30) | false ↦ none ]

abbrev to_ms : ℕ → ℕ → ℕ → ℕ → ℕ
to_ms now days hour minute = 34200000

abbrev body : Body
body = record {
  type = some "LOG";
  payload = some "report";
  time = some "09:30";
  email = none;
  message = none;
}

abbrev clock : Readings
clock = record { at_request = 100; after_save = 110 }

abbrev never_blank : String → Bool
never_blank t = false

abbrev guesses : List (String × Operation)
guesses = ("admin", jobs_requeue 3) ∷ ("", circuit_reset "API") ∷ []

guesses-AreWrong : AreWrong never_blank "secret" guesses
guesses-AreWrong = (
  inr (λ e. ground (arith, (eq_iff "secret" "admin").1 e)),
  (inr (λ e. ground (arith, (eq_iff "secret" "").1 e)), tt),
)

wrong_keys_refused_example :
    let r = administer_all never_blank "secret" guesses (state_of []) in
    AreRefused never_blank "secret" r.0 × (r.1 ≡ state_of [])
wrong_keys_refused_example =
    wrong_keys_refused never_blank "secret" guesses (state_of []) guesses-AreWrong
