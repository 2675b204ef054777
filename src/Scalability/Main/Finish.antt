-- ===== src/Scalability/Main/Finish.antt =====
-- How scalability-test.js finishes, and what its report shows then.
use mathlib.Core.List.{map-map}
use job_queue_event_processi.Prelude.{
  ℕ, zero, suc, ◌+◌, ◌≤◌, ◌<◌, ◌≡◌, refl, sym, subst, ltb, Bool-cases, ◌∙◌, ap, ◌⊎◌, inl, inr,
  String, Option, none, some, List, [], ◌∷◌, map, arith,
}
use job_queue_event_processi.Js.Outcome.{
  Outcome, done, thrown, exited, out_of_fuel, and_then, on_thrown, exit,
}
use job_queue_event_processi.Js.Env.{Env}
use job_queue_event_processi.Js.Ending.{IsEnding}
use job_queue_event_processi.Scalability.Stress.{StressRow}
use job_queue_event_processi.Scalability.Stress.Threshold.{first_failing}
use job_queue_event_processi.Scalability.Report.{
  Phases, Page, Line, row_warn, row_ok, Badge, first_failures_at, no_failures, fail_badge,
  phase1_line, phase3_line, generate_html_report,
}
use job_queue_event_processi.Scalability.Main.{run_phases, written, write_report, main}
use job_queue_event_processi.Scalability.Main.Course.{AreComplete, run_phases-Ends}

-- The label that the lines of the stress table call for: that of the first line marked as a warning.
abbrev pub label_of : List (Line StressRow) → Badge
label_of [] = no_failures
label_of (l ∷ ls) = elim l.class [
  | row_warn ↦ first_failures_at l.cells.concurrency
  | row_ok ↦ label_of ls
]

abbrev ArePositive : List ℕ → Type 0
ArePositive [] = Unit {0}
ArePositive (n ∷ ns) = (0 < n) × ArePositive ns

fail_badge-some : (n : ℕ) → 0 < n → fail_badge (some n) ≡ first_failures_at n
fail_badge-some zero h = elim h [ ]
fail_badge-some (suc n) h = refl

module _ (env : Env) where
  open env use {World}

  label_of_lem :
      (rows : List StressRow)
      → ArePositive (map (λ r. r.concurrency) rows)
      → label_of (map (phase3_line env) rows) ≡ fail_badge (first_failing rows)
  unfolding first_failing
  label_of_lem [] h = refl
  label_of_lem (r ∷ rows) (h, hs) = elim (Bool-cases (ltb 0 r.fail)) [
    | inl failed ↦ rw failed (sym (fail_badge-some r.concurrency h))
    | inr clean ↦ rw clean (label_of_lem rows hs)
  ]

  -- What the page shows.
  abbrev pub IsSound : Page → Type 0
  IsSound page =
      (map (λ l. l.cells.target) page.phase1_rows ≡ 10 ∷ 25 ∷ 50 ∷ 100 ∷ [])
      × (map (λ l. l.cells.concurrency) page.phase3_rows ≡ 10 ∷ 50 ∷ 100 ∷ 200 ∷ 500 ∷ [])
      × (page.fail_label ≡ label_of page.phase3_rows)
      × (page.latencies.completed + page.latencies.timed_out ≤ page.latencies.total)

  report-IsSound : (p : Phases) → AreComplete p → IsSound (generate_html_report env p)
  unfolding generate_html_report
  report-IsSound p (rates, levels, threshold, counted) = (
    map-map (λ l. l.cells.target) (phase1_line env) p.phase1 ∙ rates,
    map-map (λ l. l.cells.concurrency) (phase3_line env) p.phase3.rows ∙ levels,
    ap fail_badge threshold ∙ sym (label_of_lem p.phase3.rows positive),
    counted,
  )
    where
      positive : ArePositive (map (λ r. r.concurrency) p.phase3.rows)
      positive =
          subst ArePositive (sym levels)
            (omega arith, (omega arith, (omega arith, (omega arith, (omega arith, tt)))))

  module _ (write_file_sync : Page → World → Option String × World) where
    -- The run is over with a report that was written, or with exit code 1.
    abbrev pub Finished : Outcome (Unit {0}) × World → Type 0
    Finished (o, w') =
        ((o ≡ done tt)
          × (page : Page) × (w₁ : World) × (write_file_sync page w₁ ≡ (none, w'))
          × IsSound page)
        ⊎ (o ≡ exited 1)

    write_report_lem :
        (page : Page) (w₁ : World)
        → IsSound page
        → Finished
            (let r = write_report env write_file_sync page w₁ in on_thrown r.0 (λ e. exit 1) r.1)
    unfolding write_report
    write_report_lem page w₁ h = go (write_file_sync page w₁) refl
      where
        go :
            (r : Option String × World)
            → write_file_sync page w₁ ≡ r
            → Finished (on_thrown (written env write_file_sync r.0) (λ e. exit 1) r.1)
        go (none, w') e = inl (refl, page, w₁, e, h)
        go (some m, w') e = inr refl

    -- scalability-test.js always comes to an end, whatever the server answers: it finishes, or it
    -- exits with code 1, and no exception leaves `main`. It finishes only after it has written its
    -- report. There the tables have one line for each rate of phase 1 and each level of phase 3, the
    -- label of the failure threshold names the first line of the stress table that is marked as a
    -- warning, or no failures if none is, and in phase 2 the jobs that completed and those that
    -- timed out are together at most all.
    pub scalability_ends : (w : World) → Finished (main env write_file_sync w)
    unfolding main
    scalability_ends w = go (run_phases env w).0 (run_phases env w).1 ((run_phases-Ends env).end w)
      where
        go :
            (o : Outcome Phases) (w₁ : World)
            → IsEnding AreComplete o
            → Finished (
                let r =
                  and_then o
                    (λ p. write_report env write_file_sync (generate_html_report env p))
                    w₁ in
                on_thrown r.0 (λ e. exit 1) r.1)
        go (done p) w₁ h = write_report_lem (generate_html_report env p) w₁ (report-IsSound p h)
        go (thrown e) w₁ h = inr refl
        go (exited n) w₁ h = rw h (inr refl)
        go out_of_fuel w₁ h = absurd h
