-- ===== src/Queue/Consumer/Retry.antt =====
-- The retry budget and the backoff.
use job_queue_event_processi.Prelude.{
  ℕ, zero, suc, ◌+◌, ◌^◌, ◌≤◌, ◌≡◌, some, arith, inl, inr, Option-cases, List, [], ◌∷◌, length,
}
use native.Mathlib.Nat.{pow-suc}
use native.Mathlib.Numerals.{add-one}
use job_queue_event_processi.Queue.Job.{Job}
use job_queue_event_processi.Queue.Repository.{find_by_id}
use job_queue_event_processi.Queue.State.{Message, id_text, garbage, Backend}
use job_queue_event_processi.Queue.Executor.{Outside}
use job_queue_event_processi.Queue.Consumer.{Times, backoff, consume}
use job_queue_event_processi.Queue.Consumer.Frame.{consume_acknowledges}
use job_queue_event_processi.Queue.Consumer.Moves.{
  Move, stay, cancel, defer, complete, back_off, exhaust, Rewrites, consume-Rewrites,
  consume_unknown,
}

pow_pos : (k : ℕ) → 1 ≤ 2 ^ k
pow_pos zero = omega arith
pow_pos (suc k) = omega (arith, pow-suc 2 k, pow_pos k)

backoff-suc :
    (k : ℕ)
    → (2000 ≤ backoff (suc k))
      × (backoff (suc k) ≤ 20000)
      × (backoff (suc k) ≤ backoff (suc (suc k)))
unfolding backoff
backoff-suc k =
    (omega (arith, pow-suc 2 k, pow_pos k), omega arith, omega (arith, pow-suc 2 (suc k)))

-- The delay before the k-th retry lies between 2 and 20 seconds, and never shrinks from one retry
-- to the next.
pub backoff_bounds :
    (k : ℕ) → 1 ≤ k → (2000 ≤ backoff k) × (backoff k ≤ 20000) × (backoff k ≤ backoff (k + 1))
backoff_bounds zero h = absurd (omega arith)
backoff_bounds (suc k) h = rw add-one (backoff-suc k)

-- No job in the table has been retried more often than `MAX_RETRY`.
abbrev pub IsBudgeted : Backend → Type 0
IsBudgeted s = (n : ℕ) (job : Job) → find_by_id n s.jobs ≡ some job → job.retry_count ≤ 5

Move-budget : (job row : Job) → Move job row → job.retry_count ≤ 5 → row.retry_count ≤ 5
Move-budget job row (stay e) h = ground (arith, e)
Move-budget job row (cancel e k) h = omega arith
Move-budget job row (defer e k) h = omega arith
Move-budget job row (complete q e k) h = omega arith
Move-budget job row (back_off q l e k) h = omega arith
Move-budget job row (exhaust q l e k) h = omega arith

Rewrites-budget :
    (job : Job) (s : Backend) (s' : Backend)
    → Rewrites job s.jobs s'.jobs
    → job.retry_count ≤ 5
    → IsBudgeted s
    → IsBudgeted s'
Rewrites-budget job s s' r h b m found e =
    ground (arith, r.table m, b m found, Move-budget job r.row r.moved h)

consume-IsBudgeted :
    (out : Outside) (t : Times) (m : Message) (s : Backend)
    → IsBudgeted s
    → IsBudgeted (consume out t m s)
consume-IsBudgeted out t (garbage text) s b = unfold consume in b
consume-IsBudgeted out t (id_text n) s b = elim (Option-cases (find_by_id n s.jobs)) [
  | inl missing ↦ rw (consume_unknown out t "" n s missing).1 b
  | inr (job, found) ↦
      Rewrites-budget job s (consume out t (id_text n) s) (consume-Rewrites out t n job s found)
        (b n job found) b
]

-- The messages of a partition, each with the clock readings of its call.
pub consume_all : Outside → List (Times × Message) → Backend → Backend
consume_all out [] s = s
consume_all out ((t, m) ∷ ms) s = consume_all out ms (consume out t m s)

-- Whatever messages are consumed, and whatever the executors do: if no job has more than 5 retries,
-- none has more afterwards.
pub consume_all-IsBudgeted :
    (out : Outside) (ms : List (Times × Message)) (s : Backend)
    → IsBudgeted s
    → IsBudgeted (consume_all out ms s)
unfolding consume_all
consume_all-IsBudgeted out [] s b = b
consume_all-IsBudgeted out ((t, m) ∷ ms) s b =
    consume_all-IsBudgeted out ms (consume out t m s) (consume-IsBudgeted out t m s b)

-- Every message is acknowledged exactly once, on every path.
pub consume_all-acknowledged :
    (out : Outside) (ms : List (Times × Message)) (s : Backend)
    → (consume_all out ms s).acknowledged ≡ s.acknowledged + length ms
unfolding consume_all
consume_all-acknowledged out [] s = omega arith
consume_all-acknowledged out ((t, m) ∷ ms) s =
    omega
      (arith, consume_all-acknowledged out ms (consume out t m s), consume_acknowledges out t m s)
