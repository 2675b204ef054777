-- ===== src/Queue/Api.antt =====
-- controller/JobController.java, controller/AdminController.java, the validation of
-- dto/JobRequest.java, and exception/GlobalExceptionHandler.java. An answer carries its HTTP status.
-- The regular expressions run in Java: `match_time` gives the hour and minute of a text that the
-- pattern of `time` matches, and `is_blank` is `String.isBlank`.
pub mod Requests
pub mod Keys
use job_queue_event_processi.Prelude.{
  ℕ, String, str_eq, not, ◌||◌, ◌⊎◌, inl, inr, Bool, if◌then◌else◌, Option, none, some, List, [],
  ◌∷◌,
}
use job_queue_event_processi.Queue.Job.{Job}
use job_queue_event_processi.Queue.State.{Backend}
use job_queue_event_processi.Queue.State
use job_queue_event_processi.Queue.Service.{Readings, JobRequest, JobStats, create_job}
use job_queue_event_processi.Queue.Service
use job_queue_event_processi.Queue.Admin.{
  ActionResult, Health, recover_watcher, reconcile_redis, requeue_job, reset_circuit,
  get_detailed_health,
}

-- What a handler throws: a MethodArgumentNotValidException with the fields that failed, an
-- IllegalArgumentException, or a ResponseStatusException.
pub data Thrown : Type 0 where
  invalid : (fields : List String) → Thrown
  illegal_argument : (message : String) → Thrown
  response_status : (status : ℕ) (reason : String) → Thrown

-- dto/ErrorResponse.java without its time; of `fieldErrors` the fields.
pub record ErrorResponse : Type 0 where
  pub status : ℕ
  pub error : String
  pub message : String
  pub field_errors : List String

pub data Response (A : Type 0) : Type 0 where
  answer : A → Response A
  failure : ErrorResponse → Response A

-- Spring calls the handler of the nearest class: a ResponseStatusException has none of its own, so
-- the one for Exception takes it.
unfoldable pub handle : Thrown → ErrorResponse
handle (invalid fields) = record {
  status = 400;
  error = "Validation Failed";
  message = "Request body contains invalid fields";
  field_errors = fields;
}
handle (illegal_argument m) = record {
  status = 400;
  error = "Bad Request";
  message = m;
  field_errors = [];
}
handle (response_status status reason) = record {
  status = 500;
  error = "Internal Server Error";
  message = "An unexpected error occurred";
  field_errors = [];
}

-- The body of `POST /jobs`, before its validation.
pub record Body : Type 0 where
  pub type : Option String
  pub payload : Option String
  pub time : Option String
  pub email : Option String
  pub message : Option String

-- `@NotBlank` and `@Pattern` of `type`.
unfoldable pub valid_type : Option String → Option String
valid_type none = none
valid_type (some t) = if str_eq t "EMAIL" || str_eq t "API" || str_eq t "LOG" then some t else none

module _ (match_time : String → Option (ℕ × ℕ)) where
  -- `@Pattern` of `time`, which lets `null` pass.
  unfoldable pub valid_time : Option String → Option (Option (ℕ × ℕ))
  valid_time none = some none
  valid_time (some t) = elim (match_time t) [ none ↦ none | some time ↦ some (some time) ]

  abbrev pub validated : Option String → Option (Option (ℕ × ℕ)) → Body → List String ⊎ JobRequest
  validated none none body = inl ("type" ∷ "time" ∷ [])
  validated none (some time) body = inl ("type" ∷ [])
  validated (some type) none body = inl ("time" ∷ [])
  validated (some type) (some time) body = inr (record {
    type = type;
    payload = body.payload;
    time = time;
    email = body.email;
    message = body.message;
  })

  -- `@Valid @RequestBody`.
  unfoldable pub validate : Body → List String ⊎ JobRequest
  validate body = validated (valid_type body.type) (valid_time body.time) body

  unfoldable pub post_job :
      (at_time : ℕ → ℕ → ℕ → ℕ → ℕ) → Readings → String → Body → Backend → Response Job × Backend
  post_job at_time clock key body s = elim (validate body) [
    | inl fields ↦ (failure (handle (invalid fields)), s)
    | inr request ↦ let r = create_job at_time clock key request s in (answer r.0, r.1)
  ]

-- `POST /jobs/{id}/cancel`, `GET /jobs/{id}` and `GET /jobs/stats`; the text of the first is left out.
unfoldable pub cancel : (now id : ℕ) → Backend → Response (Unit {0}) × Backend
cancel now id s = (answer tt, State.cancel_job now id s)

unfoldable pub get_job : ℕ → Backend → Response (Option Job)
get_job id s = answer (Service.get_job id s)

unfoldable pub get_stats : Backend → Response JobStats
get_stats s = answer (Service.get_stats s)

-- The operations of the administrator that change the state.
pub data Operation : Type 0 where
  watcher_recover redis_reconcile : (now : ℕ) → Operation
  jobs_requeue : (id : ℕ) → Operation
  circuit_reset : (type : String) → Operation

abbrev pub perform : Operation → Backend → ActionResult × Backend
perform (watcher_recover now) s = recover_watcher now s
perform (redis_reconcile now) s = reconcile_redis now s
perform (jobs_requeue id) s = requeue_job id s
perform (circuit_reset type) s = reset_circuit type s

module _ (is_blank : String → Bool) (api_key : String) where
  -- `authorize`, and what it throws.
  unfoldable pub authorize : String → Option Thrown
  authorize key =
      if is_blank api_key || not (str_eq api_key key)
      then some (response_status 401 "Invalid admin API key")
      else none

  unfoldable pub administer : String → Operation → Backend → Response ActionResult × Backend
  administer key op s = elim (authorize key) [
    | some e ↦ (failure (handle e), s)
    | none ↦ let r = perform op s in (answer r.0, r.1)
  ]

  unfoldable pub detailed_health : (now : ℕ) → String → Backend → Response Health
  detailed_health now key s = elim (authorize key) [
    | some e ↦ failure (handle e)
    | none ↦ answer (get_detailed_health now s)
  ]
