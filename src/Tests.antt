-- ===== src/Tests.antt =====
-- Concrete inputs of the theorems: servers for the scripts, and states of the back end.
mod Server
mod Scripts
mod Jobs
mod Lives
mod Requests
mod Suites
mod Reports
mod Healing
