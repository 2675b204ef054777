-- ===== src/Queue.antt =====
-- The Spring application, src/main/java/com/project/job_queue: the jobs table, the Redis delay
-- queue, and the services that move a job through its states.
pub mod Job
pub mod Repository
pub mod Limiter
pub mod State
pub mod Executor
pub mod Consumer
pub mod Dispatcher
pub mod Watcher
pub mod Service
pub mod Admin
pub mod System
pub mod Api
