-- ===== src/Scalability.antt =====
-- scalability-test.js. Console output is left out, and so is what only formats it.
pub mod Client
pub mod Latency
pub mod Throughput
pub mod Stress
pub mod Warmup
pub mod Resilience
pub mod Report
pub mod Main
