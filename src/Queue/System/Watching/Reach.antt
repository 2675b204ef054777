-- ===== src/Queue/System/Watching/Reach.antt =====
-- What a run of the watcher does with one PENDING job that is due soon.
use job_queue_event_processi.Prelude.{
  ℕ, ◌⊎◌, ◌+◌, ◌-◌, ◌≤◌, ◌≡◌, ◌∙◌, ◌==◌, ==_iff, refl, ap, subst, ◌&&◌, Bool, true, false,
  Bool-cases, inl, inr, Option, none, some, List, [], ◌∷◌, arith,
}
use job_queue_event_processi.Queue.Job.{pending, scheduled, retry, is, Job}
use job_queue_event_processi.Queue.Repository.{
  find_by_id, find_by_id-save, save, select, order_by, time_of, between, count_by_status,
  find_window, find_retry_window,
}
use job_queue_event_processi.Queue.State.{Backend, schedule_job}
use job_queue_event_processi.Queue.State.Keys.{get_key-put_key}
use job_queue_event_processi.Queue.Watcher.{watch_pending, watch_retry, heartbeat, watch}
use job_queue_event_processi.Queue.System.Table.{
  IsUnique, IsUnique-rows, IsRow, IsCopy, AllJobs, AllJobs-take, AllJobs-order_by,
}
use job_queue_event_processi.Queue.System.Rows.{as_scheduled, some_inj}
use job_queue_event_processi.Queue.System.Steps.{
  Copies, scheduled-Copies, order_by-Copies, watch_pending-Keeps,
}
use job_queue_event_processi.Queue.System.Watching.{
  has_id, has_id-select, has_id-order_by, length-order_by, take_all, length-select, IsWaiting,
  watch_pending-IsWaiting,
}

-- A copy of a row that is not SCHEDULED is the row.
copy-row :
    (n : ℕ) (job k : Job) (table : List Job)
    → is job.status scheduled ≡ false
    → find_by_id n table ≡ some job
    → (k.id == n) ≡ true
    → IsCopy table k
    → k ≡ job
copy-row n job k table other row same copy =
    elim (subst (λ m. (find_by_id m table ≡ some k) ⊎ (find_by_id m table ≡ some (as_scheduled k)))
      ((==_iff k.id n).0 same) copy) [
        | inl fresh ↦ some_inj k job (find_by_id n table) fresh row
        | inr old ↦ absurd (clash (some_inj (as_scheduled k) job (find_by_id n table) old row))
      ]
  where
    clash : as_scheduled k ≡ job → ⊥
    clash e = ground (arith, ap (λ (j : Job). is j.status scheduled) e)

-- The step of the loop for the job itself.
first-IsWaiting :
    (n : ℕ) (job : Job) (s : Backend)
    → (job.id == n) ≡ true
    → IsWaiting n (as_scheduled job) (
        schedule_job job.id
          (time_of job.schedule_time)
          (record s { jobs = save (as_scheduled job) s.jobs }))
unfolding schedule_job
first-IsWaiting n job s same = (
  find_by_id-save n (as_scheduled job) s.jobs ∙ rw same refl,
  get_key-put_key job.id (time_of job.schedule_time) n s.delay_queue ∙ rw same refl,
)

watch_pending-reaches :
    (n : ℕ) (job : Job) (js : List Job) (s : Backend)
    → Copies js s
    → find_by_id n s.jobs ≡ some job
    → job.status ≡ pending
    → has_id n js ≡ true
    → IsWaiting n (as_scheduled job) (watch_pending js s)
unfolding watch_pending
watch_pending-reaches n job [] s h row from there = absurd (ground arith)
watch_pending-reaches n job (k ∷ ks) s (c, cs) row from there = elim (Bool-cases (k.id == n)) [
  | inl same ↦
      let e = copy-row n job k s.jobs (rw from refl) row same c in
      rw (watch_pending, e, from)
        (watch_pending-IsWaiting n (as_scheduled job) ks _ refl
          (unfold schedule_job in scheduled-Copies job ks s (subst (IsCopy s.jobs) e c) cs)
          (first-IsWaiting n job s (subst (λ j. (j.id == n) ≡ true) e same)))
  | inr other ↦ elim (Bool-cases (is k.status pending)) [
    | inr away ↦
        rw (watch_pending, away) (watch_pending-reaches n job ks s cs row from (ground arith))
    | inl waits ↦
        rw (watch_pending, waits)
          (watch_pending-reaches n job ks _ (unfold schedule_job in scheduled-Copies k ks s c cs)
            (unfold schedule_job in (find_by_id-save n (as_scheduled k) s.jobs ∙ rw other row)) from
            (ground arith))
  ]
]

-- The loop over the jobs to retry passes by a job that is not in its list.
watch_retry-others :
    (n : ℕ) (job : Job) (js : List Job) (s : Backend)
    → AllJobs (λ k. (k.id == n) ≡ false) js
    → IsWaiting n job s
    → IsWaiting n job (watch_retry js s)
unfolding watch_retry
watch_retry-others n job [] s h w = w
watch_retry-others n job (k ∷ ks) s (other, h) (row, key) = elim (Bool-cases (is k.status retry)) [
  | inr away ↦ rw (watch_retry, away) (watch_retry-others n job ks s h (row, key))
  | inl due ↦
      rw (watch_retry, due)
        (watch_retry-others n job ks _ h (
          unfold schedule_job in
          (
            find_by_id-save n (as_scheduled k) s.jobs ∙ rw other row,
            get_key-put_key k.id (time_of k.next_retry_time) n s.delay_queue ∙ rw other key,
          )))
]

select-others :
    (n : ℕ) (job : Job) (q : Job → Bool) (table js : List Job)
    → find_by_id n table ≡ some job
    → job.status ≡ scheduled
    → AllJobs (IsRow table) js
    → AllJobs (λ k. (k.id == n) ≡ false) (select (λ j. is j.status retry && q j) js)
unfolding select
select-others n job q table [] row ready h = tt
select-others n job q table (k ∷ ks) row ready (r, rs) =
    let rest = select-others n job q table ks row ready rs in
    elim (Bool-cases (is k.status retry && q k)) [
      | inr miss ↦ rw (select, miss) rest
      | inl hit ↦ rw (select, hit) (other hit, rest)
    ]
  where
    clash : is k.status retry && q k ≡ true → k ≡ job → ⊥
    clash hit e = ground (arith, ap (λ (j : Job). j.status) e)

    other : is k.status retry && q k ≡ true → (k.id == n) ≡ false
    other hit = elim (Bool-cases (k.id == n)) [
      | inr differs ↦ differs
      | inl same ↦
          let row₂ = subst (λ m. find_by_id m table ≡ some k) ((==_iff k.id n).0 same) r in
          absurd (clash hit (some_inj k job (find_by_id n table) row₂ row))
    ]

-- The last run of the watcher is not longer ago than the gap that it recovers from.
abbrev pub IsRegular : (now : ℕ) → Option ℕ → Type 0
IsRegular now none = Unit {0}
IsRegular now (some last) = now - last ≤ 25000

pub heartbeat-regular :
    (now : ℕ) (last : Option ℕ) (s : Backend) → IsRegular now last → heartbeat now last s ≡ s
unfolding heartbeat
heartbeat-regular now none s h = refl
heartbeat-regular now (some last) s h = ground arith

find_window-reaches :
    (now n t : ℕ) (job : Job) (s : Backend)
    → find_by_id n s.jobs ≡ some job
    → job.status ≡ pending
    → job.schedule_time ≡ some t
    → t ≤ now
    → count_by_status pending s.jobs ≤ 200
    → has_id n (find_window 0 now 200 s.jobs) ≡ true
unfolding find_window
find_window-reaches now n t job s row from time soon few =
    let key = λ (j : Job). time_of j.schedule_time in
    let in_window = λ (j : Job). between 0 now j.schedule_time in
    let p = λ (j : Job). is j.status pending && in_window j in
    let hit : p job ≡ true = rw (from, time) (ground arith) in
    let all = take_all 200 (order_by key (select p s.jobs)) (
      omega
        (arith, length-order_by key (select p s.jobs), length-select pending in_window s.jobs)) in
    rw all (has_id-order_by key n (select p s.jobs) ∙ has_id-select p n job s.jobs row hit)

pub watch_reaches :
    (now n t : ℕ) (job : Job) (s : Backend)
    → IsUnique s.jobs
    → IsRegular now s.last_run
    → count_by_status pending s.jobs ≤ 200
    → find_by_id n s.jobs ≡ some job
    → job.status ≡ pending
    → job.schedule_time ≡ some t
    → t ≤ now + 20000
    → IsWaiting n (as_scheduled job) (watch now s)
unfolding watch find_retry_window
watch_reaches now n t job s u regular few row from time soon =
    let s₀ = record s { last_run = some now } in
    let calm = heartbeat-regular now s.last_run s₀ regular in
    let due = find_window 0 (now + 20000) 200 s.jobs in
    let s₂ = watch_pending due s₀ in
    let copies : Copies due s₀ = unfold find_window in order_by-Copies 200 _ _ s₀ u in
    let reached =
      watch_pending-reaches n job due s₀ copies row from
        (find_window-reaches (now + 20000) n t job s row from time soon few) in
    let rows = IsUnique-rows s₂.jobs ((watch_pending-Keeps due s₀ copies).unique u) in
    let in_window = λ (j : Job). between 0 (now + 20000) j.next_retry_time in
    let p = λ (j : Job). is j.status retry && in_window j in
    let others = AllJobs-take _ 200 _ (
      AllJobs-order_by _ (λ j. time_of j.next_retry_time) _
        (select-others n (as_scheduled job) in_window s₂.jobs s₂.jobs reached.0 refl rows)) in
    rw calm (watch_retry-others n (as_scheduled job) _ s₂ others reached)
