-- ===== src/Agent/Observer.antt =====
-- agents/observer.py: the incidents that come from Kafka, without those that were seen lately. Times
-- and the time to live are in one unit.
pub mod Recent
use job_queue_event_processi.Prelude.{
  ℕ, ltb, ◌-◌, Bool, true, false, ◌||◌, if◌then◌else◌, Option, none, some, List, [], ◌∷◌, ◌++◌,
  take,
}
use job_queue_event_processi.Healer.Text.{Text, codes}
use job_queue_event_processi.Agent.Models.{Settings, IncidentPayload, AgentRunResult, same_text}
use job_queue_event_processi.Agent.Client.{Service}
use job_queue_event_processi.Agent.Planner.{get_or}
use job_queue_event_processi.Agent.Orchestrator.{Outside, AgentState, process_incident}

-- `_seen`, in the order of insertion.
abbrev pub Seen : Type 0
Seen = List (Text × ℕ)

-- `_purge`.
unfoldable pub purge : (ttl now : ℕ) → Seen → Seen
purge ttl now [] = []
purge ttl now ((key, time) ∷ seen) =
    let rest = purge ttl now seen in if ltb ttl (now - time) then rest else (key, time) ∷ seen

-- `key in self._seen`.
unfoldable pub is_seen : Text → Seen → Bool
is_seen key [] = false
is_seen key ((k, time) ∷ seen) = same_text key k || is_seen key seen

-- The key of `_is_duplicate`.
unfoldable pub key_of : IncidentPayload → Text
key_of incident =
    incident.type
    ++ (codes ":"
        ++ (get_or (codes "None") incident.job_id ++ (codes ":" ++ take 80 incident.evidence)))

-- `_is_duplicate` behind its key, with the dictionary that it leaves.
unfoldable pub is_duplicate : (ttl : ℕ) → (key : Text) → (now : ℕ) → Seen → Bool × Seen
is_duplicate ttl key now seen =
    let left = purge ttl now seen in
    if is_seen key left then (true, left) else (false, left ++ ((key, now) ∷ []))

-- What a poll gives: nothing, an error, or a message with the incident that its value is, if it is
-- one.
pub data Polled : Type 0 where
  nothing broken : Polled
  message : (incident : Option IncidentPayload) → Polled

pub record ObserverState (S : Type 0) : Type 0 where
  pub running : Bool
  pub seen : Seen
  pub agent : AgentState S

-- `start`, which also starts the thread of the loop, and `stop`.
unfoldable pub start : {S : Type 0} → ObserverState S → ObserverState S
start state = record state { running = true }

unfoldable pub stop : {S : Type 0} → ObserverState S → ObserverState S
stop state = record state { running = false }

-- What happens while the loop runs: a poll, with the time and the id that an incident would be given,
-- or a call of `stop`.
pub data Turn : Type 0 where
  polled_at : (new_id : Text) (now : ℕ) (polled : Polled) → Turn
  stopping : Turn

module _ {S : Type 0} (service : Service S) (settings : Settings) (o : Outside) where
  -- One turn of `_consume_loop`, at a time and with the id that the incident would be given. What a
  -- run raises is only logged.
  unfoldable pub consume : (new_id : Text) → (now : ℕ) → Polled → ObserverState S → ObserverState S
  consume new_id now nothing state = state
  consume new_id now broken state = state
  consume new_id now (message none) state = state
  consume new_id now (message (some incident)) state =
      let (duplicate, seen) =
        is_duplicate settings.dedup_ttl_seconds (key_of incident) now state.seen in
      if duplicate then record state { seen = seen } else record state {
        seen = seen;
        agent = (process_incident service settings o new_id now incident state.agent).1;
      }

  -- `_consume_loop` over what happens; it ends once `_running` is false.
  unfoldable pub consume_loop : List Turn → ObserverState S → ObserverState S
  consume_loop [] state = state
  consume_loop (stopping ∷ turns) state = consume_loop turns (stop state)
  consume_loop (polled_at new_id now polled ∷ turns) state =
      let rest = consume_loop turns (consume new_id now polled state) in
      if state.running then rest else state
