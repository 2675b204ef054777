-- ===== src/Queue/System/Creation.antt =====
-- A creation adds one row under the next id, and keeps the others.
use job_queue_event_processi.Prelude.{
  ℕ, suc, ◌+◌, ◌≡◌, ◌∙◌, ◌==◌, refl, leb, Bool-cases, inl, inr, if◌then◌else◌, none, some, String,
  List, [], ◌∷◌, ◌++◌, arith,
}
use job_queue_event_processi.Queue.Job.{queued, Job}
use job_queue_event_processi.Queue.Repository.{find_by_id, find_by_id-save, save}
use job_queue_event_processi.Queue.State.{Backend, send_job}
use job_queue_event_processi.Queue.Service.{
  Readings, JobRequest, create_job, new_job, schedule_time_of, immediate_threshold,
}
use job_queue_event_processi.Queue.System.Life.{view, IsNew}
use job_queue_event_processi.Queue.System.Table.{
  IsUnique, save-IsUnique, append-IsUnique, find_by_id-append,
}

-- The table with one more row.
pub record Adds (n : ℕ) (js js' : List Job) : Type 0 where
  pub row : Job
  pub same_id : row.id ≡ n
  pub new : IsNew (view row)
  pub unique : IsUnique js → IsUnique js'
  pub table : (m : ℕ) → find_by_id m js' ≡ (if n == m then some row else find_by_id m js)

append-Adds :
    (job : Job) (js : List Job)
    → find_by_id job.id js ≡ none
    → IsNew (view job)
    → Adds job.id js (js ++ job ∷ [])
append-Adds job js fresh new = record {
  row = job;
  same_id = refl;
  new = new;
  unique = append-IsUnique job js fresh;
  table = λ m. find_by_id-append m job js fresh;
}

save-Adds :
    (job row : Job) (js js' : List Job)
    → Adds job.id js js'
    → row.id ≡ job.id
    → IsNew (view row)
    → Adds job.id js (save row js')
save-Adds job row js js' a same new = record {
  row = row;
  same_id = same;
  new = new;
  unique = λ u. save-IsUnique row js' (a.unique u);
  table = λ m. find_by_id-save m row js' ∙ ground (arith, a.table m, same);
}

pub create_job-Adds :
    (at_time : ℕ → ℕ → ℕ → ℕ → ℕ) (clock : Readings) (key : String) (request : JobRequest)
    (s : Backend)
    → find_by_id s.next_id s.jobs ≡ none
    → let s' = (create_job at_time clock key request s).1 in
      Adds s.next_id s.jobs s'.jobs × (s'.next_id ≡ suc s.next_id)
unfolding create_job new_job send_job
create_job-Adds at_time clock key request s fresh =
    let time = schedule_time_of at_time clock request.time in
    let job = new_job s.next_id time key request in
    let added = append-Adds job s.jobs fresh (record { status = inl refl; unused = refl }) in
    elim (Bool-cases (leb time (clock.after_save + immediate_threshold))) [
      | inr late ↦ rw late (added, refl)
      | inl soon ↦ rw soon (
        save-Adds job (record job { status = queued }) s.jobs _ added refl
            (record { status = inr refl; unused = refl }),
        refl,
      )
    ]
