-- ===== src/Healer.antt =====
-- The self-healer, self-healer/src: it reads log lines, detects incidents in them, and prints a plan
-- for each.
pub mod Text
pub mod Domain
pub mod Detectors
pub mod Planner
pub mod Json
pub mod Main
