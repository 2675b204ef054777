-- ===== src/Runner.antt =====
-- test-runner.js.
pub mod Health
pub mod Functional
pub mod Waves
pub mod Main
