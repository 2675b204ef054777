-- ===== src/Queue/Service.antt =====
-- dto/JobRequest.java and service/JobService.java. The wall-clock time of day that a request may
-- name is resolved by java.time: `at_time now days hour minute` stands for the epoch milliseconds of
-- that time in Asia/Kolkata, so many days after the date that `now` has there.
pub mod Creation
pub mod Stats
use job_queue_event_processi.Prelude.{
  ℕ, suc, ◌+◌, ◌-◌, leb, ltb, String, Bool, true, false, if◌then◌else◌, Option, none, some, List,
  [], ◌∷◌, ◌++◌, length,
}
use job_queue_event_processi.Queue.Job.{
  JobStatus, pending, scheduled, queued, processing, completed, failed, retry, cancelled, Job,
}
use job_queue_event_processi.Queue.Repository.{find_by_id, save, count_by_status}
use job_queue_event_processi.Queue.State.{Backend, id_text, send_job}

-- A request whose `time`, if it has one, is split into its hour and minute.
pub record JobRequest : Type 0 where
  pub type : String
  pub payload : Option String
  pub time : Option (ℕ × ℕ)
  pub email : Option String
  pub message : Option String

abbrev pub immediate_threshold : ℕ
immediate_threshold = 60000

-- The clock readings of a call: for the schedule time, and after the first save.
pub record Readings : Type 0 where
  pub at_request : ℕ
  pub after_save : ℕ

unfoldable pub schedule_time_of : (at_time : ℕ → ℕ → ℕ → ℕ → ℕ) → Readings → Option (ℕ × ℕ) → ℕ
schedule_time_of at_time clock none = clock.at_request
schedule_time_of at_time clock (some (hour, minute)) =
    let today = at_time clock.at_request 0 hour minute in
    if ltb today clock.at_request then at_time clock.at_request 1 hour minute else today

unfoldable pub new_job : (id schedule_time : ℕ) (key : String) → JobRequest → Job
new_job id schedule_time key request = record {
  id = id;
  type = request.type;
  status = pending;
  payload = request.payload;
  email = request.email;
  message = request.message;
  retry_count = 0;
  schedule_time = some schedule_time;
  next_retry_time = none;
  idempotency_key = key;
}

-- `createJob` with the random key that it draws. The database gives the new row the next id.
unfoldable pub create_job :
    (at_time : ℕ → ℕ → ℕ → ℕ → ℕ) → Readings → String → JobRequest → Backend → Job × Backend
create_job at_time clock key request s =
    let schedule_time = schedule_time_of at_time clock request.time in
    let job = new_job s.next_id schedule_time key request in
    let saved = record s { jobs = s.jobs ++ job ∷ []; next_id = suc s.next_id } in
    if leb schedule_time (clock.after_save + immediate_threshold)
    then (let dispatched = record job { status = queued } in
        (
          dispatched,
          send_job (id_text job.id) (record saved { jobs = save dispatched saved.jobs }),
        ))
    else (job, saved)

-- `getJob`.
unfoldable pub get_job : ℕ → Backend → Option Job
get_job n s = find_by_id n s.jobs

-- `getStats`: the count of each status, in the order of the enum, and TOTAL.
pub record JobStats : Type 0 where
  pub by_status : List (JobStatus × ℕ)
  pub total : ℕ

abbrev pub statuses : List JobStatus
statuses = pending ∷ scheduled ∷ queued ∷ processing ∷ completed ∷ failed ∷ retry ∷ cancelled ∷ []

unfoldable pub counts : List JobStatus → List Job → List (JobStatus × ℕ)
counts [] js = []
counts (st ∷ sts) js = (st, count_by_status st js) ∷ counts sts js

unfoldable pub get_stats : Backend → JobStats
get_stats s = record { by_status = counts statuses s.jobs; total = length s.jobs }
