-- ===== src/Queue/Service/Creation.antt =====
-- What `createJob` does with a request.
use mathlib.Core.List.{append-nil}
use job_queue_event_processi.Prelude.{
  sym, ℕ, suc, ◌+◌, ◌<◌, ◌≤◌, leb, leb→le, ◌≡◌, ◌⊎◌, inl, inr, refl, Bool-cases, String, some, List,
  [], ◌∷◌, ◌++◌, arith,
}
use job_queue_event_processi.Queue.Job.{queued, Job}
use job_queue_event_processi.Queue.Repository.{find_by_id, save}
use job_queue_event_processi.Queue.State.{Backend, Message, id_text, send_job}
use job_queue_event_processi.Queue.Service.{
  Readings, JobRequest, create_job, new_job, schedule_time_of, immediate_threshold, get_job,
}

-- The next id is above every id of the table.
abbrev pub IsFresh : ℕ → List Job → Type 0
IsFresh n [] = Unit {0}
IsFresh n (j ∷ js) = (j.id < n) × IsFresh n js

find_by_id-fresh :
    (n : ℕ) (job : Job) (js : List Job)
    → job.id ≡ n
    → IsFresh n js
    → find_by_id n (js ++ job ∷ []) ≡ some job
unfolding find_by_id
find_by_id-fresh n job [] same h = ground arith
find_by_id-fresh n job (k ∷ ks) same (below, h) = ground (arith, find_by_id-fresh n job ks same h)

pub find_by_id-save-fresh :
    (n : ℕ) (job queued_job : Job) (js : List Job)
    → job.id ≡ n
    → queued_job.id ≡ n
    → IsFresh n js
    → find_by_id n (save queued_job (js ++ job ∷ [])) ≡ some queued_job
unfolding find_by_id save
find_by_id-save-fresh n job q [] same same' h = ground arith
find_by_id-save-fresh n job q (k ∷ ks) same same' (below, h) =
    ground (arith, find_by_id-save-fresh n job q ks same same' h)

-- The effect of a creation on the table and on the topic.
pub record Created (job : Job) (sent : List Message) (s s' : Backend) : Type 0 where
  found : get_job job.id s' ≡ some job
  topic : s'.topic ≡ s.topic ++ sent
  next : s'.next_id ≡ suc s.next_id

-- Where every id of the table is below the next id, the created job is the one that `getJob` finds
-- under its id. A job due within a minute is QUEUED and its id goes to the topic; any other job
-- stays PENDING and nothing is sent.
pub create_job-Created :
    (at_time : ℕ → ℕ → ℕ → ℕ → ℕ) (clock : Readings) (key : String) (request : JobRequest)
    (s : Backend)
    → IsFresh s.next_id s.jobs
    → let time = schedule_time_of at_time clock request.time in
      let r = create_job at_time clock key request s in
      let job = new_job s.next_id time key request in
      ((time ≤ clock.after_save + immediate_threshold)
        × (r.0 ≡ record job { status = queued })
        × Created r.0 (id_text s.next_id ∷ []) s r.1)
      ⊎ ((clock.after_save + immediate_threshold < time) × (r.0 ≡ job) × Created r.0 [] s r.1)
unfolding create_job get_job new_job send_job
create_job-Created at_time clock key request s fresh =
    let time = schedule_time_of at_time clock request.time in
    let job = new_job s.next_id time key request in
    let is_soon = leb time (clock.after_save + immediate_threshold) in
    elim (Bool-cases is_soon) [
      | inl soon ↦ rw soon (
          inl (
            leb→le time (clock.after_save + immediate_threshold) soon,
            refl,
            record {
              found =
                  find_by_id-save-fresh s.next_id job (record job { status = queued }) s.jobs refl
                    refl fresh;
              topic = refl;
              next = refl;
            },
          ))
      | inr late ↦ rw late (
          inr (
            ground arith,
            refl,
            record {
              found = find_by_id-fresh s.next_id job s.jobs refl fresh;
              topic = sym (append-nil s.topic);
              next = refl;
            },
          ))
    ]
