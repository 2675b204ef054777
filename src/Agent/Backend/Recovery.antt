-- ===== src/Agent/Backend/Recovery.antt =====
-- What the agent achieves on the back end, and that it achieves nothing with a wrong key.
use job_queue_event_processi.Prelude.{
  ℕ, zero, suc, ◌≡◌, ◌∙◌, inl, inr, refl, String, Bool, Option, Option-cases, List,
}
use job_queue_event_processi.Queue.Job.{Job}
use job_queue_event_processi.Queue.State.{Backend}
use job_queue_event_processi.Queue.Admin.{ActionResult}
use job_queue_event_processi.Queue.Api.{Operation}
use job_queue_event_processi.Queue.Api.Keys.{IsWrong, administer-wrong}
use job_queue_event_processi.Healer.Text.{Text}
use job_queue_event_processi.Agent.Models.{Settings, IncidentPayload, AgentRunResult}
use job_queue_event_processi.Agent.Client.{Service, retry, post}
use job_queue_event_processi.Agent.Backend.{operation_of, post_to_backend, backend_service}
use job_queue_event_processi.Agent.Orchestrator.{Outside, AgentState, process_incident}
use job_queue_event_processi.Agent.Orchestrator.Control.{
  Controlled, untouched, requested, process_incident-Controlled,
}

module _ (is_blank : String → Bool) (api_key key : String) (now : ℕ)
    (texts : ActionResult → Option Text × Option (List Text)) (route : Text → Option Operation)
    (number : Text → Option ℕ) (status : Job → Text) where
  abbrev pub served : Service Backend
  served = backend_service is_blank api_key key now texts route number status

  module _ (wrong : IsWrong is_blank api_key key) where
    post_to_backend-wrong :
        (path : Text) (s : Backend)
        → (post_to_backend is_blank api_key key now texts route number status path s).1 ≡ s
    unfolding post_to_backend
    post_to_backend-wrong path s =
        elim (Option-cases (operation_of is_blank api_key key now texts route number status path)) [
          | inl nowhere ↦ rw (post_to_backend, nowhere) refl
          | inr (op, at) ↦
              rw (post_to_backend, at) (administer-wrong is_blank api_key key op s wrong).1
        ]

    retry-wrong : (n : ℕ) (path : Text) (s : Backend) → (retry served n path s).1 ≡ s
    unfolding retry
    retry-wrong zero path s = refl
    retry-wrong (suc n) path s =
        let r = post_to_backend is_blank api_key key now texts route number status path s in
        elim (Option-cases r.0) [
          | inl again ↦ rw (retry, again) (retry-wrong n path r.1 ∙ post_to_backend-wrong path s)
          | inr (reply, done) ↦ rw (retry, done) (post_to_backend-wrong path s)
        ]

    Controlled-wrong :
        (settings : Settings) (o : Outside) (r : Option AgentRunResult) (s s' : Backend)
        → Controlled served settings o r s s'
        → s' ≡ s
    unfolding post
    Controlled-wrong settings o r s _ untouched = refl
    Controlled-wrong settings o r s _ (requested path run either e wet on enough) =
        retry-wrong 3 path s

    -- An agent with a wrong key changes nothing on the back end, whatever incident it processes.
    pub wrong_key_harmless :
        (settings : Settings) (o : Outside) (new_id : Text) (at : ℕ) (incident : IncidentPayload)
        (state : AgentState Backend)
        → (process_incident served settings o new_id at incident state).1.world ≡ state.world
    wrong_key_harmless settings o new_id at incident state =
        Controlled-wrong settings o _ state.world _
          (process_incident-Controlled served settings o new_id at incident state)
