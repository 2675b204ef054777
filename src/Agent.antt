-- ===== src/Agent.antt =====
-- The AI agent, ai-agent/app: it takes incidents from Kafka, from its HTTP interface and from the
-- self-healer, chooses an action for each, and carries it out on the back end.
pub mod Models
pub mod Rules
pub mod Planner
pub mod Client
pub mod Executor
pub mod Healing
pub mod Orchestrator
pub mod Observer
pub mod EndToEnd
pub mod Backend
pub mod Main
