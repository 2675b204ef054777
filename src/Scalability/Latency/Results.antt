-- ===== src/Scalability/Latency/Results.antt =====
-- What a chain of phase 2 returns.
use job_queue_event_processi.Prelude.{
  ℕ, ◌+◌, ◌-◌, ◌*◌, ◌≤◌, ◌<◌, ◌≡◌, inl, inr, refl, ltb, ltb→lt, Bool, true, false, not, ◌&&◌, ◌||◌,
  Bool-cases, none, some, List, get_or, arith,
}
use job_queue_event_processi.Js.Value.{Value, undefined, str, opt_prop, truthy, is_str}
use job_queue_event_processi.Js.Env.{Env, Request, Pending, idle, asked, job, Fetched}
use job_queue_event_processi.Scalability.Client.{
  Submission, submission, submit_request, get_request, body_or_null, is_final,
}
use job_queue_event_processi.Scalability.Latency.{
  timeout, E2eResult, Stage, submitting, asking, resting, settled, Chain, or_else, finish,
  ask_again, go_on, work,
}

-- A submission that gave the script a job.
abbrev pub is_accepted : Submission → Bool
is_accepted sub = sub.success && truthy sub.id

module _ (env : Env) where
  open env use {World, clock, parse, template, next}

  -- At some time the event loop goes on with a chain that waits for a request, and gives it an answer.
  pub record Answers (req : Request) (t : ℕ) (f : Fetched) : Type 0 where
    pub ps : List Pending
    pub w : World
    pub waiting : get_or ps (next ps w).0.0 idle ≡ asked req
    pub answer : (next ps w).0.1 ≡ f
    pub time : clock (next ps w).1 ≡ t

  -- A submission of job `label`, begun at `submit_ts`, is what its request was answered with.
  pub record Submitted (label submit_ts : ℕ) (sub : Submission) : Type 0 where
    pub t : ℕ
    pub f : Fetched
    pub answers : Answers (submit_request (template "e2e-" label)) t f
    pub same : submission parse submit_ts t f ≡ sub

  -- The job of a submission is seen with a body.
  pub record Seen (sub : Submission) (body : Value) : Type 0 where
    pub t : ℕ
    pub f : Fetched
    pub answers : Answers (get_request (job sub.id)) t f
    pub same : body_or_null parse f ≡ body
    pub there : truthy body ≡ true

  -- A result is of one of three kinds: the submission was not accepted; it was, and the job was seen
  -- in a final status, with success where that is COMPLETED; or it was, and the timeout passed.
  pub data IsResult (r : E2eResult) : Type 0 where
    unsent :
        (label submit_ts : ℕ) (sub : Submission)
        → Submitted label submit_ts sub
        → is_accepted sub ≡ false
        → r.success ≡ false
        → r.e2e_latency ≡ none
        → r.final_status ≡ undefined
        → IsResult r
    ended :
        (label submit_ts ms : ℕ) (sub : Submission) (body : Value)
        → Submitted label submit_ts sub
        → is_accepted sub ≡ true
        → Seen sub body
        → is_final (opt_prop body "status") ≡ true
        → r.final_status ≡ opt_prop body "status"
        → r.success ≡ is_str r.final_status "COMPLETED"
        → r.e2e_latency ≡ some ms
        → IsResult r
    timed_out :
        (label submit_ts ms : ℕ) (sub : Submission)
        → Submitted label submit_ts sub
        → is_accepted sub ≡ true
        → r.success ≡ false
        → r.final_status ≡ str "TIMEOUT"
        → r.e2e_latency ≡ some ms
        → timeout ≤ ms
        → IsResult r

  -- The submission that a chain waits with.
  abbrev pub HasJob : (label submit_ts : ℕ) → Submission → Type 0
  HasJob label submit_ts sub = Submitted label submit_ts sub × (is_accepted sub ≡ true)

  -- What a chain that began at `submit_ts` has noted by a time `now`.
  abbrev pub IsTimed : (label submit_ts now : ℕ) → Stage → Type 0
  IsTimed label submit_ts now submitting = submit_ts ≤ now
  IsTimed label submit_ts now (asking sub deadline sent) =
      (submit_ts + timeout ≤ deadline) × (sent ≤ now) × HasJob label submit_ts sub
  IsTimed label submit_ts now (resting sub deadline due) =
      (submit_ts + timeout ≤ deadline) × HasJob label submit_ts sub
  IsTimed label submit_ts now (settled r) = IsResult r

  -- A chain can go on at time `t`, with an answer where it waits for one.
  abbrev pub IsDue : (label t : ℕ) → Fetched → Stage → Type 0
  IsDue label t f submitting = Answers (submit_request (template "e2e-" label)) t f
  IsDue label t f (asking sub deadline sent) = Answers (get_request (job sub.id)) t f
  IsDue label t f (resting sub deadline due) = due ≤ t
  IsDue label t f (settled r) = ⊥

  -- What going on does to a chain.
  pub record Moved (t : ℕ) (st : Stage) (c c' : Chain) : Type 0 where
    pub less : work c'.stage < work st
    pub timed : IsTimed c.label c.submit_ts t c'.stage
    pub same : c'.submit_ts ≡ c.submit_ts
    pub same_label : c'.label ≡ c.label

  or_else-final : (v : Value) → is_final v ≡ true → or_else v (str "TIMEOUT") ≡ v
  or_else-final v h = ground arith

  finish-Moved :
      (t : ℕ) (sub : Submission) (found : Value) (st : Stage) (c : Chain)
      → HasJob c.label c.submit_ts sub
      → (truthy found ≡ true → Seen sub found)
      → truthy found && is_final (opt_prop found "status") ≡ true
      → 0 < work st
      → Moved t st c (finish t sub found c)
  finish-Moved t sub found st c (sent, accepted) seen h live =
      let final : is_final (opt_prop found "status") ≡ true = ground arith in
      let there : truthy found ≡ true = ground arith in
      record {
        less = live;
        timed =
            rw (or_else-final (opt_prop found "status") final, there)
              (ended c.label c.submit_ts (t - c.submit_ts) sub found sent accepted (seen there)
                final refl refl refl);
        same = refl;
        same_label = refl;
      }

  ask_again-Moved :
      (t deadline : ℕ) (sub : Submission) (st : Stage) (c : Chain)
      → HasJob c.label c.submit_ts sub
      → c.submit_ts + timeout ≤ deadline
      → (t < deadline → 2 * (deadline - t) + 2 < work st)
      → 0 < work st
      → Moved t st c (ask_again t deadline sub c)
  unfolding opt_prop
  ask_again-Moved t deadline sub st c (sent, accepted) h less live =
      elim (Bool-cases (ltb t deadline)) [
        | inl early ↦ rw early (record {
          less = less (ltb→lt t deadline early);
          timed = (h, omega arith, (sent, accepted));
          same = refl;
          same_label = refl;
        })
        | inr late ↦ rw late (record {
          less = live;
          timed =
              timed_out c.label c.submit_ts (t - c.submit_ts) sub sent accepted refl refl refl
                (ground arith);
          same = refl;
          same_label = refl;
        })
      ]

  pub go_on-Moved :
      (t now : ℕ) (f : Fetched) (st : Stage) (c : Chain)
      → IsTimed c.label c.submit_ts now st
      → now ≤ t
      → IsDue c.label t f st
      → Moved t st c (go_on parse t f st c)
  unfolding go_on
  go_on-Moved t now f submitting c timed later due =
      let sub = submission parse c.submit_ts t f in
      let sent : Submitted c.label c.submit_ts sub = record {
        t = t;
        f = f;
        answers = due;
        same = refl;
      } in
      elim (Bool-cases (not sub.success || not (truthy sub.id))) [
        | inl refused ↦ rw refused (record {
          less = omega arith;
          timed = unsent c.label c.submit_ts sub sent (ground (arith, refused)) refl refl refl;
          same = refl;
          same_label = refl;
        })
        | inr passed ↦ rw passed (
            ask_again-Moved t (t + timeout) sub submitting c (sent, ground (arith, passed))
              (omega arith) (λ early. omega arith) (omega arith))
      ]
  go_on-Moved t now f (asking sub deadline sent) c (h, s, had) later due =
      let found = body_or_null parse f in
      let st = asking sub deadline sent in
      elim (Bool-cases (truthy found && is_final (opt_prop found "status"))) [
        | inl over ↦ rw over (
            finish-Moved t sub found st c had
              (λ there. record { t = t; f = f; answers = due; same = refl; there = there }) over
              (omega arith))
        | inr early ↦
            rw early
              (record { less = omega arith; timed = (h, had); same = refl; same_label = refl })
      ]
  go_on-Moved t now f (resting sub deadline due_at) c (h, had) later due =
      ask_again-Moved t deadline sub (resting sub deadline due_at) c had h (λ early. omega arith)
        (omega arith)
  go_on-Moved t now f (settled r) c timed later due = absurd due
