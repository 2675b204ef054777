-- ===== src/Scalability/Report.antt =====
-- `generateHTMLReport`: what the page shows of the results. Its markup is left out, and a label of
-- the page is the badge that it stands for.
use job_queue_event_processi.Prelude.{
  ℕ, zero, suc, ltb, String, if◌then◌else◌, Option, none, some, List, map,
}
use job_queue_event_processi.Js.Value.{Value}
use job_queue_event_processi.Js.Env.{Env}
use job_queue_event_processi.Scalability.Throughput.{Row}
use job_queue_event_processi.Scalability.Latency.{Phase2}
use job_queue_event_processi.Scalability.Stress.{StressRow, StressReport, pct}
use job_queue_event_processi.Scalability.Resilience.{Triggered, Verdict, Phase4}

-- The parameter of `generateHTMLReport`, without the time of the run.
pub record Phases : Type 0 where
  pub phase1 : List Row
  pub phase2 : Phase2
  pub phase3 : StressReport
  pub phase4 : Phase4

-- `row-warn` or `row-ok`, with `bad` or `good`.
pub data RowClass : Type 0 where
  row_warn row_ok : RowClass

-- A line of the table of phase 1 or of phase 3: its class, its rate of success in tenths of a
-- percent, and the row that its other cells show.
pub record Line (R : Type 0) : Type 0 where
  pub class : RowClass
  pub success_rate : ℕ
  pub cells : R

-- `failLabel` with `failClass`, `rlLabel`, `cbLabel` and `cancelLabel`.
pub data Badge : Type 0 where
  first_failures_at : ℕ → Badge
  no_failures : Badge
  triggered : (retry_count recovery_pct : ℕ) → Badge
  not_triggered : Badge
  circuit_opened : Badge
  inconclusive : Value → Badge
  cancellation_accepted cancellation_unexpected : Value → Badge

-- The series of the charts; `parseFloat` of the texts in `p1_rps` and `p3_throughput` is left out.
pub record Charts : Type 0 where
  pub p1_labels : List ℕ
  pub p1_p50 : List ℕ
  pub p1_p90 : List ℕ
  pub p1_p99 : List ℕ
  pub p1_rps : List String
  pub p3_labels : List ℕ
  pub p3_success : List ℕ
  pub p3_p99 : List ℕ
  pub p3_throughput : List String

pub record Page : Type 0 where
  pub phase1_rows : List (Line Row)
  pub phase3_rows : List (Line StressRow)
  pub fail_label : Badge
  pub rl_label : Badge
  pub cb_label : Badge
  pub cancel_label : Badge
  pub latencies : Phase2
  pub charts : Charts

abbrev pub row_class : (fail : ℕ) → RowClass
row_class fail = if ltb 0 fail then row_warn else row_ok

-- A threshold of 0 is falsy.
abbrev pub fail_badge : Option ℕ → Badge
fail_badge none = no_failures
fail_badge (some zero) = no_failures
fail_badge (some (suc n)) = first_failures_at (suc n)

abbrev pub rl_badge : Option Triggered → Badge
rl_badge none = not_triggered
rl_badge (some t) = triggered t.retry_count t.recovery_pct

abbrev pub cb_badge : Verdict → Badge
cb_badge v = if v.passed then circuit_opened else inconclusive v.status

abbrev pub cancel_badge : Verdict → Badge
cancel_badge v =
    if v.passed then cancellation_accepted v.status else cancellation_unexpected v.status

abbrev pub charts_of : List Row → List StressRow → Charts
charts_of phase1 rows = record {
  p1_labels = map (λ r. r.target) phase1;
  p1_p50 = map (λ r. r.p50) phase1;
  p1_p90 = map (λ r. r.p90) phase1;
  p1_p99 = map (λ r. r.p99) phase1;
  p1_rps = map (λ r. r.actual) phase1;
  p3_labels = map (λ r. r.concurrency) rows;
  p3_success = map (λ r. r.success_rate) rows;
  p3_p99 = map (λ r. r.p99) rows;
  p3_throughput = map (λ r. r.throughput) rows;
}

module _ (env : Env) where
  abbrev pub phase1_line : Row → Line Row
  phase1_line r = record {
    class = row_class r.fail;
    success_rate = pct env r.success r.sent;
    cells = r;
  }

  abbrev pub phase3_line : StressRow → Line StressRow
  phase3_line r = record { class = row_class r.fail; success_rate = r.success_rate; cells = r }

  unfoldable pub generate_html_report : Phases → Page
  generate_html_report p = record {
    phase1_rows = map phase1_line p.phase1;
    phase3_rows = map phase3_line p.phase3.rows;
    fail_label = fail_badge p.phase3.failure_threshold;
    rl_label = rl_badge p.phase4.rate_limiter;
    cb_label = cb_badge p.phase4.circuit_breaker;
    cancel_label = cancel_badge p.phase4.cancellation;
    latencies = p.phase2;
    charts = charts_of p.phase1 p.phase3.rows;
  }
