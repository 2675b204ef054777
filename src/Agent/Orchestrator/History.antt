-- ===== src/Agent/Orchestrator/History.antt =====
-- What the agent remembers of its runs.
use mathlib.Core.List.{append-nil, append_assoc}
use job_queue_event_processi.Prelude.{
  ℕ, zero, suc, ◌+◌, ◌-◌, ◌≤◌, ltb, ◌≡◌, ◌∙◌, refl, sym, ap, inl, inr, Bool-cases, Option, none,
  some, Option-cases, List, [], ◌∷◌, ◌++◌, length, length-append, length-drop, drop, arith,
}
use job_queue_event_processi.Healer.Text.{Text}
use job_queue_event_processi.Agent.Models.{Settings, IncidentPayload, AgentRunResult, given}
use job_queue_event_processi.Agent.Client.{Service}
use job_queue_event_processi.Agent.Healing.{enrich_incident}
use job_queue_event_processi.Agent.Planner.{get_or}
use job_queue_event_processi.Agent.Executor.{execute}
use job_queue_event_processi.Agent.Orchestrator.{
  Outside, AgentState, max_history, last_of, remember, plan_of, run_of_incident, process_enriched,
  process_incident,
}

module _ {A : Type 0} where
  drop-append : (k : ℕ) (xs ys : List A) → k ≤ length xs → drop k (xs ++ ys) ≡ drop k xs ++ ys
  drop-append zero xs ys h = refl
  drop-append (suc k) [] ys h = absurd (omega arith)
  drop-append (suc k) (x ∷ xs) ys h = drop-append k xs ys (omega arith)

  drop-nil : (k : ℕ) → ◌≡◌ {A = List A} (drop k []) []
  drop-nil zero = refl
  drop-nil (suc k) = refl

  drop-drop : (j k n : ℕ) (xs : List A) → k + j ≡ n → drop j (drop k xs) ≡ drop n xs
  drop-drop j zero n xs h = ap (λ m. drop m xs) (omega arith)
  drop-drop j (suc k) zero xs h = absurd (omega arith)
  drop-drop j (suc k) (suc n) [] h = drop-nil j
  drop-drop j (suc k) (suc n) (x ∷ xs) h = drop-drop j k n xs (omega arith)

cut :
    (history : List AgentRunResult) (r : AgentRunResult)
    → remember r history ≡ last_of max_history (history ++ (r ∷ []))
unfolding remember
cut history r =
    let longer = history ++ (r ∷ []) in
    elim (Bool-cases (ltb max_history (length longer))) [
      | inl long ↦ rw (remember, long) refl
      | inr short ↦
          let nothing : length longer - max_history ≡ 0 = ground arith in
          rw (remember, short, nothing) refl
    ]

-- Remembering a run keeps the last hundred of all runs.
remember-last_of :
    (runs : List AgentRunResult) (r : AgentRunResult)
    → remember r (last_of max_history runs) ≡ last_of max_history (runs ++ (r ∷ []))
remember-last_of runs r =
    let k = length runs - max_history in
    let all = runs ++ (r ∷ []) in
    let longer = drop k runs ++ (r ∷ []) in
    let same : longer ≡ drop k all = sym (drop-append k runs (r ∷ []) (omega arith)) in
    cut (drop k runs) r
    ∙ ap (last_of max_history) same
    ∙ drop-drop (length (drop k all) - max_history) k (length all - max_history) all
        (rw (length-drop k all, length-append runs (r ∷ [])) (omega arith))

module _ {S : Type 0} (service : Service S) (settings : Settings) (o : Outside) where
  abbrev finished : Option AgentRunResult → List AgentRunResult
  finished none = []
  finished (some run) = run ∷ []

  -- The agent's runs for a sequence of incidents, each with the id and the time that it would give: the
  -- runs that came to an end, and the state that is left.
  unfoldable pub process_all :
      List (Text × ℕ × IncidentPayload) → AgentState S → List AgentRunResult × AgentState S
  process_all [] state = ([], state)
  process_all ((new_id, now, incident) ∷ incidents) state =
      let r = process_incident service settings o new_id now incident state in
      let rest = process_all incidents r.1 in (finished r.0 ++ rest.0, rest.1)

  -- The history is the last hundred of these runs.
  abbrev pub Recalls : List AgentRunResult → List AgentRunResult → Type 0
  Recalls history runs = history ≡ last_of max_history runs

  process_enriched-Recalls :
      (id : Text) (i : IncidentPayload) (state : AgentState S) (runs : List AgentRunResult)
      → Recalls state.history runs
      → let r = process_enriched service settings o id i state in
        Recalls r.1.history (runs ++ finished r.0)
  unfolding process_enriched
  process_enriched-Recalls id i state runs h =
      let p = plan_of service settings o i state.world in
      let result = execute service settings o.trouble p state.world in
      elim (Option-cases result.0) [
        | inl raised ↦
            rw (process_enriched, raised) (h ∙ ap (last_of max_history) (sym (append-nil runs)))
        | inr (execution, done) ↦
            let run = run_of_incident service settings o id i state.world execution in
            rw (process_enriched, done) (ap (remember run) h ∙ remember-last_of runs run)
      ]

  process_incident-Recalls :
      (new_id : Text) (now : ℕ) (incident : IncidentPayload) (state : AgentState S)
      (runs : List AgentRunResult)
      → Recalls state.history runs
      → let r = process_incident service settings o new_id now incident state in
        Recalls r.1.history (runs ++ finished r.0)
  unfolding process_incident
  process_incident-Recalls new_id now incident state runs h =
      let id = get_or new_id (given incident.incident_id) in
      let named = record incident {
        incident_id = some id;
        timestamp = some (get_or now incident.timestamp);
      } in
      elim (Option-cases (enrich_incident settings o.program named)) [
        | inl raised ↦
            rw (process_incident, raised) (h ∙ ap (last_of max_history) (sym (append-nil runs)))
        | inr (enriched, done) ↦
            rw (process_incident, done) (process_enriched-Recalls id enriched state runs h)
      ]

  -- After any sequence of incidents the history holds exactly the last hundred of the completed runs,
  -- the earlier ones included, in their order.
  pub process_all-Recalls :
      (incidents : List (Text × ℕ × IncidentPayload)) (state : AgentState S)
      (runs : List AgentRunResult)
      → Recalls state.history runs
      → let r = process_all incidents state in Recalls r.1.history (runs ++ r.0)
  unfolding process_all
  process_all-Recalls [] state runs h = h ∙ ap (last_of max_history) (sym (append-nil runs))
  process_all-Recalls ((new_id, now, incident) ∷ incidents) state runs h =
      let r = process_incident service settings o new_id now incident state in
      let rest = process_all incidents r.1 in
      process_all-Recalls incidents r.1 (runs ++ finished r.0)
        (process_incident-Recalls new_id now incident state runs h)
      ∙ ap (last_of max_history) (append_assoc runs (finished r.0) rest.0)
