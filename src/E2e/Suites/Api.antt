-- ===== src/E2e/Suites/Api.antt =====
-- Suite 1: the endpoints.
use job_queue_event_processi.Prelude.{◌==◌, ◌&&◌, ◌||◌, some, [], ◌∷◌}
use job_queue_event_processi.Js.Value.{Value, num, str, truthy, is_str}
use job_queue_event_processi.Js.Outcome.{Script, ◌>>=◌, ◌>>◌, lift}
use job_queue_event_processi.Js.Env.{Env, health}
use job_queue_event_processi.Js.Http.{object, get_from, read_prop, IsPlain}
use job_queue_event_processi.Js.Compare.{
  same_value, is_object, is_string, text_includes, in_object, to_number, exceeds,
}
use job_queue_event_processi.E2e.Polling.{includes, http, get_job, http-IsPlain, get_job-IsPlain}
use job_queue_event_processi.E2e.Totals.{ArePlain, assert}
use job_queue_event_processi.E2e.Verdict.{Suite}
use job_queue_event_processi.E2e.Suites.Steps.{
  typed, timed, create_job, cancel_job, get_stats, expect_200, steps,
}

module _ (env : Env) where
  open env use {World, number}

  unfoldable pub valid_log : Script World (Unit {0})
  valid_log = do
    res ← create_job env (typed "LOG" "e2e-test-1")
    expect_200 env res
    id ← read_prop env res.body "id"
    assert env (exceeds (to_number number id) (some 0)) "Job should have an ID"
    type ← read_prop env res.body "type"
    assert env (is_str type "LOG") "Expected type LOG"
    status ← read_prop env res.body "status"
    assert env (includes ("QUEUED" ∷ "PENDING" ∷ []) status) "Unexpected status"

  -- A payload that is to be refused with 400.
  unfoldable pub refused_payload : Value → Script World (Unit {0})
  refused_payload payload = do
    res ← create_job env payload
    assert env (res.status == 400) "Expected 400"

  unfoldable pub get_returns_job : Script World (Unit {0})
  get_returns_job = do
    created ← create_job env (typed "LOG" "get-test")
    id ← read_prop env created.body "id"
    res ← get_job env id
    expect_200 env res
    found ← read_prop env res.body "id"
    assert env (same_value found id) "IDs should match"

  unfoldable pub get_missing : Script World (Unit {0})
  get_missing = do res ← get_job env (num 999999); expect_200 env res

  unfoldable pub stats_counts : Script World (Unit {0})
  stats_counts = do
    res ← get_stats env
    expect_200 env res
    assert env (is_object res.body) "Should return an object"
    total ← lift (in_object "TOTAL" res.body)
    assert env total "Should have TOTAL key"
    completed ← lift (in_object "COMPLETED" res.body)
    assert env completed "Should have COMPLETED key"

  unfoldable pub cancel_message : Script World (Unit {0})
  cancel_message = do
    created ← create_job env (typed "LOG" "cancel-endpoint-test")
    id ← read_prop env created.body "id"
    res ← cancel_job env id
    expect_200 env res
    assert env (is_string res.body && text_includes res.body "cancelled")
        "Expected cancellation message"

  unfoldable pub health_data : Script World (Unit {0})
  health_data = do
    res ← http env (get_from health)
    assert env (res.status == 200 || res.status == 503) "Expected 200 or 503"
    components ← read_prop env res.body "components"
    assert env (truthy components) "Should have components"
    db ← read_prop env components "db"
    db_status ← read_prop env db "status"
    assert env (is_str db_status "UP") "DB should be UP"
    redis ← read_prop env components "redis"
    redis_status ← read_prop env redis "status"
    assert env (is_str redis_status "UP") "Redis should be UP"

  abbrev pub suite1 : Suite env
  suite1 = (
    "1 — API Endpoint Validation",
    ("POST /jobs with valid LOG payload returns 200 with job", valid_log)
        ∷ (
          "POST /jobs with missing type returns 400",
          refused_payload (object (("payload", str "no-type") ∷ [])),
        )
        ∷ ("POST /jobs with invalid type returns 400", refused_payload (typed "INVALID" "bad-type"))
        ∷ (
          "POST /jobs with invalid time format returns 400",
          refused_payload (timed "LOG" "bad-time" "25:99"),
        )
        ∷ ("GET /jobs/{id} returns job object", get_returns_job)
        ∷ ("GET /jobs/{id} for non-existent ID returns 200 with null body", get_missing)
        ∷ ("GET /jobs/stats returns status counts", stats_counts)
        ∷ ("POST /jobs/{id}/cancel returns success message", cancel_message)
        ∷ ("GET /actuator/health returns health data", health_data)
        ∷ [],
  )

  refused_payload-IsPlain : (payload : Value) → IsPlain env (refused_payload payload)
  unfolding refused_payload
  refused_payload-IsPlain payload = search steps depth 40

  valid_log-IsPlain : IsPlain env valid_log
  unfolding valid_log
  valid_log-IsPlain = search steps depth 40

  get_returns_job-IsPlain : IsPlain env get_returns_job
  unfolding get_returns_job
  get_returns_job-IsPlain = search (steps, get_job-IsPlain) depth 40

  get_missing-IsPlain : IsPlain env get_missing
  unfolding get_missing
  get_missing-IsPlain = search (steps, get_job-IsPlain) depth 40

  stats_counts-IsPlain : IsPlain env stats_counts
  unfolding stats_counts
  stats_counts-IsPlain = search steps depth 40

  cancel_message-IsPlain : IsPlain env cancel_message
  unfolding cancel_message
  cancel_message-IsPlain = search steps depth 40

  health_data-IsPlain : IsPlain env health_data
  unfolding health_data
  health_data-IsPlain = search (steps, http-IsPlain) depth 40

  pub suite1-ArePlain : ArePlain env suite1.1
  suite1-ArePlain = (
    valid_log-IsPlain,
    (
      refused_payload-IsPlain _,
      (
        refused_payload-IsPlain _,
        (
          refused_payload-IsPlain _,
          (
            get_returns_job-IsPlain,
            (
              get_missing-IsPlain,
              (stats_counts-IsPlain, (cancel_message-IsPlain, (health_data-IsPlain, tt))),
            ),
          ),
        ),
      ),
    ),
  )
