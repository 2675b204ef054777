-- ===== src/Queue/System/Life.antt =====
-- The life of a job, as a specification of what each service may do to a row of the table.
use job_queue_event_processi.Prelude.{
  ℕ, ◌+◌, ◌<◌, ◌≤◌, ◌≡◌, ◌⊎◌, inl, inr, refl, not, ◌||◌, Bool, true, false, arith,
}
use job_queue_event_processi.Queue.Job.{
  JobStatus, pending, scheduled, queued, processing, completed, failed, retry, cancelled, is, Job,
}
use job_queue_event_processi.Queue.Consumer.Moves.{
  Move, stay, cancel, defer, complete, back_off, exhaust,
}

pub record View : Type 0 where
  pub status : JobStatus
  pub retry_count : ℕ

abbrev pub view : Job → View
view job = record { status = job.status; retry_count = job.retry_count }

-- What may change a row: the creation of a job, a flag or a reset, the watcher with its recovery and
-- reconciliation, the dispatcher, the requeueing by hand, and a message.
pub data Kind : Type 0 where
  by_creation by_flag by_watcher by_dispatcher by_hand by_message : Kind

-- The changes that each may make: a creation and a flag make none.
pub data Change : Kind → View → View → Type 0 where
  scheduling :
      {u v : View}
      → (u.status ≡ pending) ⊎ (u.status ≡ retry)
      → v.status ≡ scheduled
      → v.retry_count ≡ u.retry_count
      → Change by_watcher u v
  sending :
      {u v : View}
      → u.status ≡ scheduled
      → v.status ≡ queued
      → v.retry_count ≡ u.retry_count
      → Change by_dispatcher u v
  requeueing :
      {u v : View}
      → is u.status completed ≡ false
      → is u.status cancelled ≡ false
      → v.status ≡ queued
      → v.retry_count ≡ u.retry_count
      → Change by_hand u v
  cancelling :
      {u v : View} → v.status ≡ cancelled → v.retry_count ≡ u.retry_count → Change by_message u v
  deferring :
      {u v : View} → v.status ≡ retry → v.retry_count ≡ u.retry_count → Change by_message u v
  completing :
      {u v : View}
      → u.status ≡ queued
      → v.status ≡ completed
      → v.retry_count ≡ u.retry_count
      → Change by_message u v
  backing_off :
      {u v : View}
      → u.status ≡ queued
      → u.retry_count < 5
      → v.status ≡ retry
      → v.retry_count ≡ u.retry_count + 1
      → Change by_message u v
  exhausting :
      {u v : View}
      → u.status ≡ queued
      → 5 ≤ u.retry_count
      → v.status ≡ failed
      → v.retry_count ≡ u.retry_count
      → Change by_message u v

-- Any number of changes of one kind.
pub data Life (k : Kind) : View → View → Type 0 where
  here : {v : View} → Life k v v
  then : {u v w : View} → Change k u v → Life k v w → Life k u w

pub Life-trans : {k : Kind} {u v w : View} → Life k u v → Life k v w → Life k u w
Life-trans here l = l
Life-trans (then c m) l = then c (Life-trans m l)

-- A new job.
pub record IsNew (v : View) : Type 0 where
  pub status : (v.status ≡ pending) ⊎ (v.status ≡ queued)
  pub unused : v.retry_count ≡ 0

-- Between events no job is PROCESSING; the budget of retries holds, and it is used up by a FAILED
-- job and untouched by a PENDING one.
pub record IsStable (v : View) : Type 0 where
  pub settled : is v.status processing ≡ false
  pub budget : v.retry_count ≤ 5
  pub spent : v.status ≡ failed → v.retry_count ≡ 5
  pub unused : v.status ≡ pending → v.retry_count ≡ 0

-- A status that says nothing about the retries.
abbrev is_free : JobStatus → Bool
is_free s = not (is s processing || is s failed || is s pending)

free-IsStable :
    (s : JobStatus) (v : View) → v.status ≡ s → is_free s ≡ true → v.retry_count ≤ 5 → IsStable v
free-IsStable s v to free few = record {
  settled = ground (arith, to);
  budget = few;
  spent = λ e. ground (arith, to, e);
  unused = λ e. ground (arith, to, e);
}

Change-IsStable : {k : Kind} (u v : View) → Change k u v → IsStable u → IsStable v
Change-IsStable u v (scheduling from to same) h =
    free-IsStable scheduled v to refl (omega (arith, h.budget))
Change-IsStable u v (sending from to same) h =
    free-IsStable queued v to refl (omega (arith, h.budget))
Change-IsStable u v (requeueing open₁ open₂ to same) h =
    free-IsStable queued v to refl (omega (arith, h.budget))
Change-IsStable u v (cancelling to same) h =
    free-IsStable cancelled v to refl (omega (arith, h.budget))
Change-IsStable u v (deferring to same) h = free-IsStable retry v to refl (omega (arith, h.budget))
Change-IsStable u v (completing from to same) h =
    free-IsStable completed v to refl (omega (arith, h.budget))
Change-IsStable u v (backing_off from left to more) h = free-IsStable retry v to refl (omega arith)
Change-IsStable u v (exhausting from spent to same) h = record {
  settled = ground (arith, to);
  budget = omega (arith, h.budget);
  spent = λ e. omega (arith, h.budget);
  unused = λ e. ground (arith, to, e);
}

pub Life-IsStable : {k : Kind} {u v : View} → Life k u v → IsStable u → IsStable v
Life-IsStable here h = h
Life-IsStable (then c l) h = Life-IsStable l (Change-IsStable _ _ c h)

pub IsNew-IsStable : (v : View) → IsNew v → IsStable v
IsNew-IsStable v n = record {
  settled = elim n.status [ inl e ↦ ground (arith, e) | inr e ↦ ground (arith, e) ];
  budget = omega (arith, n.unused);
  spent = λ f. elim n.status [ inl e ↦ ground (arith, e, f) | inr e ↦ ground (arith, e, f) ];
  unused = λ e. n.unused;
}

pub once : {k : Kind} {u v : View} → Change k u v → Life k u v
once c = then c here

pub Move-Life : (job row : Job) → Move job row → Life by_message (view job) (view row)
Move-Life job row (stay e) = rw e here
Move-Life job row (cancel to same) = once (cancelling to same)
Move-Life job row (defer to same) = once (deferring to same)
Move-Life job row (complete from to same) = once (completing from to same)
Move-Life job row (back_off from left to more) = once (backing_off from left to more)
Move-Life job row (exhaust from spent to same) = once (exhausting from spent to same)
