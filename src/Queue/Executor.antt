-- ===== src/Queue/Executor.antt =====
-- executer/: ExecutorFactory, and the executors. What the mail sender and the HTTP client do is a
-- parameter: `none` if the call returns, and the message of the exception if it throws.
use job_queue_event_processi.Prelude.{String, str_eq, str_append, Option, none, some, if◌then◌else◌}
use job_queue_event_processi.Queue.Job.{Job}

pub data Executor : Type 0 where
  email_executor api_executor log_executor : Executor

-- The SimpleMailMessage of EmailExecutor.
pub record Mail : Type 0 where
  pub to : Option String
  pub subject : String
  pub text : Option String

-- `mailSender.send`, and a GET of a URL with the `webClient`.
pub record Outside : Type 0 where
  pub send_mail : Mail → Option String
  pub call_api : Option String → Option String

abbrev pub reminder : Job → Mail
reminder job = record { to = job.email; subject = "Reminder"; text = job.message }

-- `getExecutor`; `none` is the IllegalArgumentException.
unfoldable pub get_executor : String → Option Executor
get_executor type =
    if str_eq type "EMAIL"
    then some email_executor
    else if str_eq type "API"
    then some api_executor
    else if str_eq type "LOG"
    then some log_executor
    else none

unfoldable pub execute : Outside → Executor → Job → Option String
execute out email_executor job = out.send_mail (reminder job)
execute out api_executor job = out.call_api job.payload
execute out log_executor job = none

-- `executorFactory.getExecutor(job.getType())` and then `executor.execute(job)`.
unfoldable pub execute_job : Outside → Job → Option String
unfolding get_executor execute
execute_job out job = elim (get_executor job.type) [
  | none ↦ some (str_append "Invalid job type: " job.type)
  | some e ↦ execute out e job
]
