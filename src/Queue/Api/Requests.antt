-- ===== src/Queue/Api/Requests.antt =====
-- What `POST /jobs` does with a body.
use job_queue_event_processi.Prelude.{ℕ, ◌≡◌, ◌⊎◌, String, Option, none, some, List, [], ◌∷◌}
use job_queue_event_processi.Queue.Job.{Job}
use job_queue_event_processi.Queue.Service.{JobRequest}
use job_queue_event_processi.Queue.Api.{Response, answer, failure, Body}

-- The type of a body is there and one of the three; or it is not.
abbrev pub HasType : Option String → String → Type 0
HasType o t = (o ≡ some t) × ((t ≡ "EMAIL") ⊎ ((t ≡ "API") ⊎ (t ≡ "LOG")))

abbrev pub HasNoType : Option String → Type 0
HasNoType o = (t : String) → ¬ HasType o t

module _ (match_time : String → Option (ℕ × ℕ)) where
  -- The time of a body is left out, or read as an hour and a minute; or it cannot be read.
  abbrev pub HasTime : Option String → Option (ℕ × ℕ) → Type 0
  HasTime none time = time ≡ none
  HasTime (some t) time = (hm : ℕ × ℕ) × (match_time t ≡ some hm) × (time ≡ some hm)

  abbrev pub HasBadTime : Option String → Type 0
  HasBadTime none = ⊥
  HasBadTime (some t) = match_time t ≡ none

  -- A request that says what the body says.
  pub record Reads (body : Body) (request : JobRequest) : Type 0 where
    pub type : HasType body.type request.type
    pub time : HasTime body.time request.time
    pub payload : request.payload ≡ body.payload
    pub email : request.email ≡ body.email
    pub message : request.message ≡ body.message

  -- The fields that are wrong in a body.
  pub data IsWrong (body : Body) : List String → Type 0 where
    wrong_type :
        (time : Option (ℕ × ℕ))
        → HasNoType body.type
        → HasTime body.time time
        → IsWrong body ("type" ∷ [])
    wrong_time :
        (t : String) → HasType body.type t → HasBadTime body.time → IsWrong body ("time" ∷ [])
    both_wrong : HasNoType body.type → HasBadTime body.time → IsWrong body ("type" ∷ "time" ∷ [])

  abbrev pub IsBadRequest : List String → Response Job → Type 0
  IsBadRequest fields (answer job) = ⊥
  IsBadRequest fields (failure e) = (e.status ≡ 400) × (e.field_errors ≡ fields)
