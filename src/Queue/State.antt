-- ===== src/Queue/State.antt =====
-- The state behind the services: the jobs table, Redis, Kafka's job-topic, and the in-memory maps
-- of the circuit breaker; with RedisService, RedisDelayQueueService, KafkaProducerService and
-- IncidentPublisherService, whose Redis and Kafka calls become updates of it. That such a call
-- fails is not modelled.
pub mod Keys
pub mod Ready
pub mod Flags
use job_queue_event_processi.Prelude.{
  ℕ, ◌+◌, ltb, leb, ◌==◌, String, Bool, false, if◌then◌else◌, Option, none, some, List, [], ◌∷◌,
  ◌++◌,
}
use job_queue_event_processi.Prelude.Dict.{Dict}
use job_queue_event_processi.Queue.Job.{Job}

-- The text of a message on job-topic: a job's id in decimal, or what `Long.parseLong` refuses.
pub data Message : Type 0 where
  id_text : ℕ → Message
  garbage : String → Message

-- What `IncidentPublisherService.publish` is called with; the values of the attributes are numbers.
pub record Incident : Type 0 where
  pub type : String
  pub severity : String
  pub title : String
  pub job_id : Option ℕ
  pub job_type : Option String
  pub evidence : String
  pub attributes : List (String × ℕ)

pub record Backend : Type 0 where
  pub jobs : List Job
  pub next_id : ℕ
  -- The sorted set `scheduled_jobs`: ids with their scores.
  pub delay_queue : List (ℕ × ℕ)
  -- The keys `job:<id>` with the times at which they expire.
  pub cancellations : List (ℕ × ℕ)
  -- The sorted sets `rate:<type>`.
  pub rates : Dict (List ℕ)
  -- The key `watcher:lastRun`.
  pub last_run : Option ℕ
  -- job-topic, oldest message first.
  pub topic : List Message
  pub acknowledged : ℕ
  pub failure_count : Dict ℕ
  pub circuit_open : Dict Bool
  pub last_failure : Dict ℕ
  -- `incident.publisher.enabled`, and what was published.
  pub publisher_enabled : Bool
  pub incidents : List Incident
  -- The ids of the jobs whose execution was tried, newest first.
  pub executions : List ℕ

-- `acknowledge`, `publish`, `sendJob`.
abbrev pub acknowledge : Backend → Backend
acknowledge s = record s { acknowledged = s.acknowledged + 1 }

unfoldable pub publish : Incident → Backend → Backend
publish i s = if s.publisher_enabled then record s { incidents = s.incidents ++ i ∷ [] } else s

unfoldable pub send_job : Message → Backend → Backend
send_job m s = record s { topic = s.topic ++ m ∷ [] }

-- Keys with a value, at most one for each key.
unfoldable pub put_key : (n v : ℕ) → List (ℕ × ℕ) → List (ℕ × ℕ)
put_key n v [] = (n, v) ∷ []
put_key n v ((m, u) ∷ ps) = if m == n then (n, v) ∷ ps else (m, u) ∷ put_key n v ps

unfoldable pub delete_key : ℕ → List (ℕ × ℕ) → List (ℕ × ℕ)
delete_key n [] = []
delete_key n ((m, u) ∷ ps) = let rest = delete_key n ps in if m == n then rest else (m, u) ∷ rest

unfoldable pub get_key : ℕ → List (ℕ × ℕ) → Option ℕ
get_key n [] = none
get_key n ((m, u) ∷ ps) = if m == n then some u else get_key n ps

-- RedisService: the flag of a cancelled job lives for ten minutes.
abbrev pub cancel_ttl : ℕ
cancel_ttl = 600000

unfoldable pub cancel_job : (now id : ℕ) → Backend → Backend
unfolding put_key
cancel_job now id s = record s { cancellations = put_key id (now + cancel_ttl) s.cancellations }

unfoldable pub is_cancelled : (now id : ℕ) → Backend → Bool
unfolding get_key
is_cancelled now id s = elim (get_key id s.cancellations) [
  | none ↦ false
  | some expiry ↦ ltb now expiry
]

unfoldable pub clear_cancellation : ℕ → Backend → Backend
unfolding delete_key
clear_cancellation id s = record s { cancellations = delete_key id s.cancellations }

-- RedisDelayQueueService: ZADD, ZRANGEBYSCORE 0 now, ZREM.
unfoldable pub schedule_job : (id time : ℕ) → Backend → Backend
unfolding put_key
schedule_job id time s = record s { delay_queue = put_key id time s.delay_queue }

insert_scored : ℕ × ℕ → List (ℕ × ℕ) → List (ℕ × ℕ)
insert_scored (n, t) [] = (n, t) ∷ []
insert_scored (n, t) ((m, u) ∷ ps) =
    if leb t u then (n, t) ∷ (m, u) ∷ ps else (m, u) ∷ insert_scored (n, t) ps

by_score : List (ℕ × ℕ) → List (ℕ × ℕ)
unfolding insert_scored
by_score [] = []
by_score (p ∷ ps) = insert_scored p (by_score ps)

due : ℕ → List (ℕ × ℕ) → List ℕ
due now [] = []
due now ((n, t) ∷ ps) = if leb t now then n ∷ due now ps else due now ps

-- The members of equal score stand in the order in which they came in, where Redis sorts them by
-- their text.
unfoldable pub get_ready_jobs : ℕ → Backend → List ℕ
unfolding by_score due
get_ready_jobs now s = due now (by_score s.delay_queue)

unfoldable pub remove_job : ℕ → Backend → Backend
unfolding delete_key
remove_job id s = record s { delay_queue = delete_key id s.delay_queue }
