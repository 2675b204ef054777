-- ===== src/Lib.antt =====
-- The job queue and event processing system, the Node scripts that test it under load, and the
-- self-healer and the AI agent that watch it.
--
-- The back end is a Spring service (src/main/java/com/project/job_queue). A request makes a row in
-- the jobs table. A job that is due within a minute is sent to Kafka's job-topic at once; any other
-- waits for the watcher, which moves it to a delay queue in Redis, from which the dispatcher sends
-- it. The Kafka consumer takes a message from the topic and, behind a cancellation flag, a rate
-- limiter and a circuit breaker, executes the job, puts it off, or fails it. The scripts
-- scalability-test.js, test-runner.js and e2e-test.js submit jobs over HTTP, wait for them, and
-- measure.
--
-- Files:
--   Stats                the metrics of the scripts: avg, percentile, getPercentile
--   Js                   values, exceptions and the outside world of the scripts
--   Scalability          scalability-test.js: Client (submitJob, getJob, getStats,
--                        waitForCompletion, drainQueue), Warmup (phase 0), Throughput (phase 1),
--                        Latency (phase 2), Stress (phase 3), Resilience (phase 4), Report (what
--                        generateHTMLReport shows), Main (main)
--   Runner               test-runner.js: Health (waitForServer), Functional (tests 1 to 5), Waves
--                        (runStressTest), Main (main)
--   E2e                  e2e-test.js: Polling (http, pollJobStatus), Totals (runTest, runSuite),
--                        Suites (the ten suites), Verdict (main and its exit code), Run (main with
--                        the suites)
--   Queue                the back end: Job and Repository (model, repository), Limiter
--                        (RateLimiterService), State (the state that the services share, with
--                        RedisService, RedisDelayQueueService, KafkaProducerService and
--                        IncidentPublisherService), Executor (executer), Consumer
--                        (KafkaConsumerService), Dispatcher (RedisDispatcherService), Watcher
--                        (WatcherService), Service (JobService), Admin (AdminService), Api (the
--                        controllers, validation and error handling), System (sequences of
--                        events: requests, deliveries of messages and runs of the timers)
--   Healer               self-healer/src: Text (the searches), Domain (domain.hpp), Detectors
--                        (detectors.cpp), Planner (healing_strategies.cpp), Json
--                        (json_writer.cpp), Main (main.cpp)
--   Agent                ai-agent/app: Models (models.py, config.py), Rules (rules/engine.py),
--                        Planner (agents/analyzer.py, agents/planner.py), Client
--                        (clients/job_queue.py), Executor (agents/executor.py), Healing
--                        (clients/self_healer.py), Orchestrator (orchestrator.py), Observer
--                        (agents/observer.py), Main (main.py, and Bridge for
--                        log-bridge/bridge.py), Backend (the agent with the controllers of Queue),
--                        EndToEnd (from a log line to the request)
--   Prelude, Tests       shared names and lemmas; concrete inputs
--
-- A script is a function from a world to an outcome and a world. An outcome is a result, an
-- exception, process.exit, or the end of the fuel. The record Env stands for what is not in the
-- repository: the clock, timers, fetch, JSON.parse and number formatting, with the laws that time
-- does not run backwards, that a pause lasts at least as long as it is asked to, that a batch of
-- requests gives one reply to each, that a request in flight settles at most once, that of several
-- chains of promises one that waits for something goes on, a timer not before it is due, and that a
-- rounded rate is a nearest tenth. In which order chains go on is left open. A loop with a deadline
-- takes fuel: one more than its timeout in milliseconds, as each of its rounds lasts a millisecond
-- or more, and a wave of phase 2 one more than the events that its chains can still take; the
-- theorems on it say that it does not run out. A loop with a counter is recursion on the counter.
--
-- The services of the back end are functions on one state. The readings of the clock are arguments.
-- Numbers are natural; the sums of epoch milliseconds stay far below 2 ^ 63, and so does the
-- backoff, which is computed for at most 5 retries.
--
-- The services run one after the other, in any order: the specification of a job's life in
-- Queue/System/Life.antt is what they implement, and a message may be delivered any number of times.
--
-- The self-healer, in C++, reads the back end's log line by line. A chain of detectors makes an
-- incident of a line, a planner makes a dry plan of the incident, and both are printed as a JSON
-- document. The AI agent, in Python, takes such documents, incidents from Kafka and incidents over
-- HTTP, chooses an action by its policy, the self-healer's plan or a language model, and may ask the
-- back end's administrator interface to carry it out. Lines and texts are lists of codes. The
-- regular expressions of the detectors are a literal with a run of a class behind it; a search
-- is the leftmost match, as std::regex_search has it. What the agent calls and does not define (the
-- subprocess, json.loads, the language model, str.upper, HTTP) is in the records Outside, Program
-- and Service; of json.loads, the theorems ask no more than that it hands on the action of a plan.
-- A request to the back end is tried three times at most; the agent's
-- other loops run over lists.
--
-- Not modelled: console output and logging, the markup of the HTML report, the configuration of the
-- services; failures of the database, of Redis and of Kafka; the interleaving of the three
-- consumer threads within one message, and of the agent's threads within one incident; the
-- self-healer on a file that it follows without an end; and the agent's status pages and bundled
-- sample.
pub mod Prelude
pub mod Stats
pub mod Js
pub mod Queue
pub mod Scalability
pub mod Runner
pub mod E2e
pub mod Healer
pub mod Agent
mod Tests
