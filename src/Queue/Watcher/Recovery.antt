-- ===== src/Queue/Watcher/Recovery.antt =====
-- What a recovery counts, and what it puts into the delay queue.
use job_queue_event_processi.Prelude.{
  ℕ, zero, suc, ◌+◌, ◌-◌, ◌==◌, ◌≡◌, refl, Bool, true, false, not, ◌&&◌, ◌||◌, if◌then◌else◌,
  Bool-cases, inl, inr, Option, List, [], ◌∷◌, length, take, arith,
}
use job_queue_event_processi.Queue.Job.{pending, scheduled, retry, is, Job}
use job_queue_event_processi.Queue.Repository.{
  select, between, time_of, find_pending_or_scheduled_in_range, find_retry_in_range,
}
use job_queue_event_processi.Queue.State.{Backend, put_key, schedule_job}
use job_queue_event_processi.Queue.Watcher.{
  save_scheduled, recover_scheduled, recover_retry, recover_missed_jobs,
}

-- Every job of a list passes a test.
abbrev pub All : (Job → Bool) → List Job → Type 0
All p [] = Unit {0}
All p (j ∷ js) = (p j ≡ true) × All p js

select-All : (p : Job → Bool) (js : List Job) → All p (select p js)
unfolding select
select-All p [] = tt
select-All p (j ∷ js) = elim (Bool-cases (p j)) [
  | inl hit ↦ rw hit (hit, select-All p js)
  | inr miss ↦ rw miss (select-All p js)
]

take-All : (p : Job → Bool) (n : ℕ) (js : List Job) → All p js → All p (take n js)
take-All p zero js h = tt
take-All p (suc n) [] h = tt
take-All p (suc n) (j ∷ js) (h, hs) = (h, take-All p n js hs)

-- An id has a score in the delay queue.
abbrev pub has_key : ℕ → List (ℕ × ℕ) → Bool
has_key m [] = false
has_key m ((n, t) ∷ ps) = n == m || has_key m ps

abbrev pub is_waiting : Backend → Job → Bool
is_waiting s job = has_key job.id s.delay_queue

has_key-put_key :
    (m n t : ℕ) (ps : List (ℕ × ℕ)) → has_key m (put_key n t ps) ≡ (n == m || has_key m ps)
unfolding put_key
has_key-put_key m n t [] = refl
has_key-put_key m n t ((k, u) ∷ ps) = ground (arith, has_key-put_key m n t ps)

-- What a loop of the recovery does with jobs that are all due.
record Recovered (count : ℕ) (js : List Job) (s : Backend) (r : ℕ × Backend) : Type 0 where
  counted : r.0 ≡ count + length js
  kept : (k : Job) → is_waiting s k ≡ true → is_waiting r.1 k ≡ true
  waiting : All (is_waiting r.1) js

abbrev is_missed : Job → Bool
is_missed j = is j.status pending || is j.status scheduled

put_keeps :
    (j k : Job) (s s' : Backend) (t : ℕ)
    → s'.delay_queue ≡ put_key j.id t s.delay_queue
    → is_waiting s k ≡ true
    → is_waiting s' k ≡ true
put_keeps j k s s' t same w = rw same (ground (arith, has_key-put_key k.id j.id t s.delay_queue))

put_waits :
    (j : Job) (s s' : Backend) (t : ℕ)
    → s'.delay_queue ≡ put_key j.id t s.delay_queue
    → is_waiting s' j ≡ true
put_waits j s s' t same = rw same (ground (arith, has_key-put_key j.id j.id t s.delay_queue))

recover_scheduled-Recovered :
    (js : List Job) (count : ℕ) (s : Backend)
    → All is_missed js
    → Recovered count js s (recover_scheduled js count s)
unfolding recover_scheduled
recover_scheduled-Recovered [] count s h = record {
  counted = omega arith;
  kept = λ k w. w;
  waiting = tt;
}
recover_scheduled-Recovered (j ∷ js) count s (due, h) =
    let q = schedule_job j.id (time_of j.schedule_time) s in
    let s' = if is j.status pending then save_scheduled j q else q in
    let same : s'.delay_queue ≡ put_key j.id (time_of j.schedule_time) s.delay_queue =
      unfold schedule_job in ground arith in
    let rest = recover_scheduled-Recovered js (suc count) s' h in
    let is_due : not (not (is j.status pending) && not (is j.status scheduled)) ≡ true =
      ground arith in
    rw is_due (record {
      counted = omega (arith, rest.counted);
      kept = λ k w. rest.kept k (put_keeps j k s s' (time_of j.schedule_time) same w);
      waiting = (rest.kept j (put_waits j s s' (time_of j.schedule_time) same), rest.waiting);
    })

recover_retry-Recovered :
    (js : List Job) (count : ℕ) (s : Backend)
    → All (λ j. is j.status retry) js
    → Recovered count js s (recover_retry js count s)
unfolding recover_retry
recover_retry-Recovered [] count s h = record {
  counted = omega arith;
  kept = λ k w. w;
  waiting = tt;
}
recover_retry-Recovered (j ∷ js) count s (due, h) =
    let time = time_of j.next_retry_time in
    let s' = save_scheduled j (schedule_job j.id time s) in
    let same : s'.delay_queue ≡ put_key j.id time s.delay_queue = unfold schedule_job in refl in
    let rest = recover_retry-Recovered js (suc count) s' h in
    rw due (record {
      counted = omega (arith, rest.counted);
      kept = λ k w. rest.kept k (put_keeps j k s s' time same w);
      waiting = (rest.kept j (put_waits j s s' time same), rest.waiting);
    })

All-imp :
    (p q : Job → Bool) (js : List Job) → ((j : Job) → p j ≡ true → q j ≡ true) → All p js → All q js
All-imp p q [] f h = tt
All-imp p q (j ∷ js) f (h, hs) = (f j h, All-imp p q js f hs)

-- A recovery counts each job that its two queries find, and afterwards each of them has a score in
-- the delay queue.
pub recovery_counts :
    (now : ℕ) (s : Backend)
    → let missed = find_pending_or_scheduled_in_range (now - 60000) now 500 s.jobs in
      let s₁ = (recover_scheduled missed 0 s).1 in
      let retries = find_retry_in_range (now - 60000) now 500 s₁.jobs in
      let r = recover_missed_jobs now s in
      (r.0 ≡ length missed + length retries)
      × All (is_waiting r.1) missed
      × All (is_waiting r.1) retries
unfolding recover_missed_jobs find_pending_or_scheduled_in_range find_retry_in_range
recovery_counts now s =
    let in_range = λ (t : Option ℕ). between (now - 60000) now t in
    let p = λ (j : Job). is_missed j && in_range j.schedule_time in
    let q = λ (j : Job). is j.status retry && in_range j.next_retry_time in
    let missed = take 500 (select p s.jobs) in
    let missed-All = take-All p 500 (select p s.jobs) (select-All p s.jobs) in
    let first =
      recover_scheduled-Recovered missed 0 s
        (All-imp p is_missed missed (λ j h. ground arith) missed-All) in
    let r₁ = recover_scheduled missed 0 s in
    let retries = take 500 (select q r₁.1.jobs) in
    let retries-All = take-All q 500 (select q r₁.1.jobs) (select-All q r₁.1.jobs) in
    let second =
      recover_retry-Recovered retries r₁.0 r₁.1
        (All-imp q (λ j. is j.status retry) retries (λ j h. ground arith) retries-All) in
    (
      omega (arith, first.counted, second.counted),
      All-imp (is_waiting r₁.1) (is_waiting (recover_retry retries r₁.0 r₁.1).1) missed second.kept
          first.waiting,
      second.waiting,
    )
