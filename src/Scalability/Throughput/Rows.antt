-- ===== src/Scalability/Throughput/Rows.antt =====
-- The rows of the phase-1 table.
use job_queue_event_processi.Prelude.{ℕ, ◌+◌, ◌≤◌, ◌≡◌, refl, length, List, [], ◌∷◌, arith}
use job_queue_event_processi.Stats.Percentile.{percentile_mono, percentile-le-max_val}
use job_queue_event_processi.Js.Env.{Env}
use job_queue_event_processi.Scalability.Client.{Submission, accepted, rejected, latencies}
use job_queue_event_processi.Scalability.Throughput.{FixedRate, row}

-- Every submission is either accepted or rejected.
pub length-accepted-rejected :
    (rs : List Submission) → length (accepted rs) + length (rejected rs) ≡ length rs
unfolding accepted rejected
length-accepted-rejected [] = refl
length-accepted-rejected (r ∷ rs) = ground (arith, length-accepted-rejected rs)

-- A row of the throughput table counts each result once, as a success or as a failure, and its
-- latency columns ascend from p50 over p90 and p99 to the maximum.
pub row_consistent :
    (env : Env) (rps wall_ms : ℕ) (run : FixedRate)
    → let r = row env rps wall_ms run in
      (r.success + r.fail ≡ length run.results)
      × (r.p50 ≤ r.p90)
      × (r.p90 ≤ r.p99)
      × (r.p99 ≤ r.longest)
unfolding row
row_consistent env rps wall_ms run =
    let lats = latencies (accepted run.results) in
    (
      length-accepted-rejected run.results,
      percentile_mono lats 50 90 (omega arith) (omega arith),
      percentile_mono lats 90 99 (omega arith) (omega arith),
      percentile-le-max_val lats 99 (omega arith),
    )
