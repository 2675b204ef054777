-- ===== src/Queue/Job.antt =====
-- model/JobStatus.java and model/Job.java.
use job_queue_event_processi.Prelude.{ℕ, String, Bool, true, false, ◌≡◌, Option, arith}

pub data JobStatus : Type 0 where
  pending scheduled queued processing completed failed retry cancelled : JobStatus

-- `==` of the enum.
abbrev pub is : JobStatus → JobStatus → Bool
is pending pending = true
is scheduled scheduled = true
is queued queued = true
is processing processing = true
is completed completed = true
is failed failed = true
is retry retry = true
is cancelled cancelled = true
is _ _ = false

pub is-eq : (a b : JobStatus) → is a b ≡ true → a ≡ b
is-eq a b h = ground arith

pub is_refl : (a : JobStatus) → is a a ≡ true
is_refl a = ground arith

-- The entity. A `Long` that may be null is an option; times are epoch milliseconds.
pub record Job : Type 0 where
  pub id : ℕ
  pub type : String
  pub status : JobStatus
  pub payload : Option String
  pub email : Option String
  pub message : Option String
  pub retry_count : ℕ
  pub schedule_time : Option ℕ
  pub next_retry_time : Option ℕ
  pub idempotency_key : String
