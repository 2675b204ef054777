-- ===== src/Tests/Lives.antt =====
-- The theorems on sequences of events at concrete inputs.
use job_queue_event_processi.Prelude.{ℕ, ◌≡◌, refl, true, false, none, some, List, [], ◌∷◌, arith}
use job_queue_event_processi.Queue.Job.{pending, completed, Job}
use job_queue_event_processi.Queue.Repository.{find_by_id, count_by_status}
use job_queue_event_processi.Queue.State.{
  Backend, id_text, garbage, is_cancelled, cancel_job, clear_cancellation,
}
use job_queue_event_processi.Queue.State.Flags.{cancellation_roundtrip}
use job_queue_event_processi.Prelude.Dict.{lookup_or}
use job_queue_event_processi.Queue.Limiter.{allow}
use job_queue_event_processi.Queue.Executor.{execute_job}
use job_queue_event_processi.Queue.Consumer.{allow_type}
use job_queue_event_processi.Queue.Service.{
  Readings, JobRequest, new_job, get_job, schedule_time_of,
}
use job_queue_event_processi.Queue.System.{
  Event, created, cancel_asked, received, dispatched, watched, recovered, reconciled, requeued,
  circuit_reset, run,
}
use job_queue_event_processi.Queue.System.Course.{IsSound, Course, run-IsSound, run-Lives}
use job_queue_event_processi.Queue.System.Sending.{has_message}
use job_queue_event_processi.Queue.System.Progress.{IsClear, pending_completes, immediate_completes}
use job_queue_event_processi.Tests.Jobs.{job_in, state_of, outside, reading}

cancellation_roundtrip_example :
    let s = state_of [] in
    (is_cancelled 700 3 (cancel_job 500 3 s) ≡ true)
    × (is_cancelled 700 3 (clear_cancellation 3 (cancel_job 500 3 s)) ≡ false)
cancellation_roundtrip_example = cancellation_roundtrip 500 700 3 3 (state_of [])

-- 09:00 is an hour away.
abbrev in_an_hour : ℕ → ℕ → ℕ → ℕ → ℕ
in_an_hour now days hour minute = 3600000

abbrev log_request : JobRequest
log_request = record {
  type = "LOG";
  payload = none;
  time = none;
  email = none;
  message = some "hello";
}

abbrev at_nine : JobRequest
at_nine = record log_request { time = some (9, 0) }

abbrev clock : Readings
clock = record { at_request = 100; after_save = 110 }

abbrev day : List Event
day =
    created clock "a" log_request
    ∷ created clock "b" at_nine
    ∷ received reading (id_text 4)
    ∷ cancel_asked 600 5
    ∷ watched 3590000
    ∷ dispatched 3600000
    ∷ received reading (id_text 5)
    ∷ received reading (garbage "?")
    ∷ requeued 4
    ∷ recovered 3600000
    ∷ reconciled 3600000
    ∷ circuit_reset "LOG"
    ∷ []

empty-IsSound : IsSound (state_of [])
unfolding find_by_id
empty-IsSound = record {
  unique = tt;
  free = λ n above. refl;
  stable = λ n job found. absurd (ground arith);
}

run-IsSound_example : IsSound (run in_an_hour outside day (state_of []))
run-IsSound_example = run-IsSound in_an_hour outside day (state_of []) empty-IsSound

run-Lives_example : Course day none (find_by_id 4 (run in_an_hour outside day (state_of [])).jobs)
unfolding find_by_id
run-Lives_example = run-Lives in_an_hour outside day (state_of []) empty-IsSound 4

abbrev waiting_job : Job
waiting_job = job_in pending "LOG"

abbrev waiting : Backend
waiting = state_of (waiting_job ∷ [])

waiting-IsClear : IsClear outside reading waiting_job waiting
unfolding is_cancelled allow_type execute_job allow lookup_or
waiting-IsClear = record { unflagged = refl; allowed = refl; closed = refl; succeeds = refl }

pending_completes_example :
    let sent = run in_an_hour outside (watched 40 ∷ dispatched 60 ∷ []) waiting in
    let s' = run in_an_hour outside (received reading (id_text 3) ∷ []) sent in
    (has_message 3 sent.topic ≡ true)
    × (find_by_id 3 s'.jobs ≡ some (record waiting_job { status = completed }))
unfolding find_by_id count_by_status
pending_completes_example =
    pending_completes in_an_hour outside 40 60 3 50 reading waiting_job waiting (refl, tt) tt
      (omega arith) refl refl refl (omega arith) (omega arith) waiting-IsClear

abbrev new_log : Job
new_log = new_job 4 100 "a" log_request

new-IsClear : IsClear outside reading new_log (state_of [])
unfolding is_cancelled allow_type execute_job new_job allow lookup_or
new-IsClear = record { unflagged = refl; allowed = refl; closed = refl; succeeds = refl }

immediate_completes_example :
    let sent = run in_an_hour outside (created clock "a" log_request ∷ []) (state_of []) in
    let s' = run in_an_hour outside (received reading (id_text 4) ∷ []) sent in
    (sent.topic ≡ id_text 4 ∷ []) × (get_job 4 s' ≡ some (record new_log { status = completed }))
unfolding schedule_time_of
immediate_completes_example =
    immediate_completes in_an_hour outside clock "a" log_request reading (state_of []) tt
      (omega arith) new-IsClear
