-- ===== src/E2e.antt =====
-- e2e-test.js: its HTTP helpers, the polling of a job, and the counting of tests and
-- suites up to the exit code; the ten suites; and the run of all of them.
pub mod Polling
pub mod Totals
pub mod Verdict
pub mod Suites
pub mod Run
