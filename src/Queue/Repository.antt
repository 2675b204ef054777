-- ===== src/Queue/Repository.antt =====
-- repository/JobRepository.java over a table of jobs: the JPQL queries are filters, ORDER BY is a
-- stable sort, and a `PageRequest.of(0, n)` takes the first `n` rows. `save` writes the row with
-- the id of the entity.
use job_queue_event_processi.Prelude.{
  ℕ, suc, ◌≡◌, refl, leb, ◌==◌, Bool, false, ◌&&◌, ◌||◌, if◌then◌else◌, Option, none, some, List,
  [], ◌∷◌, map, take, arith,
}
use job_queue_event_processi.Queue.Job.{JobStatus, pending, scheduled, retry, is, Job}

unfoldable pub find_by_id : ℕ → List Job → Option Job
find_by_id n [] = none
find_by_id n (j ∷ js) = if j.id == n then some j else find_by_id n js

-- `repo.save(job)` of an entity that has an id.
unfoldable pub save : Job → List Job → List Job
save j [] = j ∷ []
save j (k ∷ ks) = if k.id == j.id then j ∷ ks else k ∷ save j ks

unfoldable pub select : (Job → Bool) → List Job → List Job
select p [] = []
select p (j ∷ js) = if p j then j ∷ select p js else select p js

-- `x BETWEEN a AND b`, false for null.
abbrev pub between : (start end : ℕ) → Option ℕ → Bool
between start end none = false
between start end (some t) = leb start t && leb t end

abbrev pub time_of : Option ℕ → ℕ
time_of none = 0
time_of (some t) = t

unfoldable pub insert_by : (Job → ℕ) → Job → List Job → List Job
insert_by key j [] = j ∷ []
insert_by key j (k ∷ ks) = if leb (key j) (key k) then j ∷ k ∷ ks else k ∷ insert_by key j ks

unfoldable pub order_by : (Job → ℕ) → List Job → List Job
unfolding insert_by
order_by key [] = []
order_by key (j ∷ js) = insert_by key j (order_by key js)

unfoldable pub find_window : (start end limit : ℕ) → List Job → List Job
find_window start end limit js = take limit (
    order_by (λ j. time_of j.schedule_time)
      (select (λ j. is j.status pending && between start end j.schedule_time) js))

unfoldable pub find_retry_window : (start end limit : ℕ) → List Job → List Job
find_retry_window start end limit js = take limit (
    order_by (λ j. time_of j.next_retry_time)
      (select (λ j. is j.status retry && between start end j.next_retry_time) js))

unfoldable pub find_pending_or_scheduled_in_range : (start end limit : ℕ) → List Job → List Job
find_pending_or_scheduled_in_range start end limit js = take limit (
    select
      (λ j. (is j.status pending || is j.status scheduled) && between start end j.schedule_time) js)

unfoldable pub find_retry_in_range : (start end limit : ℕ) → List Job → List Job
find_retry_in_range start end limit js =
    take limit (select (λ j. is j.status retry && between start end j.next_retry_time) js)

unfoldable pub find_overdue_scheduled : (now limit : ℕ) → List Job → List Job
find_overdue_scheduled now limit js = take limit (
    order_by (λ j. time_of j.schedule_time)
      (select (λ j. is j.status scheduled && between 0 now j.schedule_time) js))

unfoldable pub find_retry_due : (now limit : ℕ) → List Job → List Job
find_retry_due now limit js = take limit (
    order_by (λ j. time_of j.next_retry_time)
      (select (λ j. is j.status retry && between 0 now j.next_retry_time) js))

unfoldable pub count_by_status : JobStatus → List Job → ℕ
count_by_status s [] = 0
count_by_status s (j ∷ js) = let n = count_by_status s js in if is j.status s then suc n else n

unfoldable pub count_created_in_range : (start end : ℕ) → List Job → ℕ
count_created_in_range start end [] = 0
count_created_in_range start end (j ∷ js) =
    let n = count_created_in_range start end js in
    if between start end j.schedule_time then suc n else n

-- The row with an id after a save of that row.
pub find_by_id-save :
    (n : ℕ) (j : Job) (js : List Job)
    → find_by_id n (save j js) ≡ (if j.id == n then some j else find_by_id n js)
unfolding find_by_id save
find_by_id-save n j [] = refl
find_by_id-save n j (k ∷ ks) = ground (arith, find_by_id-save n j ks)

-- What a lookup finds has the id that was asked for.
pub find_by_id-id : (n : ℕ) (js : List Job) (j : Job) → find_by_id n js ≡ some j → j.id ≡ n
unfolding find_by_id
find_by_id-id n [] j h = ground arith
find_by_id-id n (k ∷ ks) j h = ground (arith, find_by_id-id n ks j)

pub ids : List Job → List ℕ
ids = map (λ j. j.id)
