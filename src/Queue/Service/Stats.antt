-- ===== src/Queue/Service/Stats.antt =====
-- The counts of `getStats`.
use job_queue_event_processi.Prelude.{ℕ, suc, ◌+◌, ◌≡◌, refl, List, [], ◌∷◌, length, arith}
use job_queue_event_processi.Queue.Job.{JobStatus, Job}
use job_queue_event_processi.Queue.Repository.{count_by_status}
use job_queue_event_processi.Queue.State.{Backend}
use job_queue_event_processi.Queue.Service.{statuses, counts, get_stats}

-- The sum of the counts of all statuses.
abbrev pub sum_counts : List (JobStatus × ℕ) → ℕ
sum_counts [] = 0
sum_counts (p ∷ ps) = p.1 + sum_counts ps

-- One job more adds 1 to the sum of the counts, whatever its status is.
count_one :
    (j : Job) (js : List Job)
    → sum_counts (counts statuses (j ∷ js)) ≡ suc (sum_counts (counts statuses js))
unfolding counts count_by_status
count_one j js = ground arith

counts_add_up : (js : List Job) → sum_counts (counts statuses js) ≡ length js
unfolding counts count_by_status
counts_add_up [] = refl
counts_add_up (j ∷ js) = ground (arith, count_one j js, counts_add_up js)

-- The counts of the eight statuses add up to TOTAL.
pub get_stats-total : (s : Backend) → sum_counts (get_stats s).by_status ≡ (get_stats s).total
unfolding get_stats
get_stats-total s = counts_add_up s.jobs
