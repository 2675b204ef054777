-- ===== src/Queue/State/Flags.antt =====
-- The cancellation flags: what is read after a flag is set and after it is cleared.
use job_queue_event_processi.Prelude.{
  ℕ, ◌+◌, ltb, ◌==◌, ◌≡◌, ◌∙◌, ap, refl, sym, Bool, true, false, if◌then◌else◌, Option, none, some,
  arith,
}
use job_queue_event_processi.Queue.State.{
  Backend, cancel_job, is_cancelled, clear_cancellation, get_key, put_key,
}
use job_queue_event_processi.Queue.State.Keys.{get_key-put_key, get_key-delete_key}

-- The reading of a flag.
live_flag : (at : ℕ) → Option ℕ → Bool
live_flag at none = false
live_flag at (some expiry) = ltb at expiry

is_cancelled_lem :
    (at m : ℕ) (s : Backend) → is_cancelled at m s ≡ live_flag at (get_key m s.cancellations)
unfolding is_cancelled live_flag
is_cancelled_lem at m s = ground arith

flag-set :
    (at : ℕ) (b : Bool) (o p : Option ℕ)
    → live_flag at (if b then o else p) ≡ (if b then live_flag at o else live_flag at p)
flag-set at true o p = refl
flag-set at false o p = refl

flag-cleared :
    (at : ℕ) (b : Bool) (o p q : Option ℕ)
    → o ≡ (if b then q else p)
    → live_flag at (if b then none else o) ≡ (if b then false else live_flag at p)
unfolding live_flag
flag-cleared at true o p q h = refl
flag-cleared at false o p q h = ap (live_flag at) h

-- After `cancelJob` a job reads as cancelled for ten minutes, and after `clearCancellation` it does
-- not. The flags of all other jobs read as before.
pub cancellation_roundtrip :
    (now at n m : ℕ) (s : Backend)
    → (is_cancelled at m (cancel_job now n s)
        ≡ (if n == m then ltb at (now + 600000) else is_cancelled at m s))
      × (is_cancelled at m (clear_cancellation n (cancel_job now n s))
          ≡ (if n == m then false else is_cancelled at m s))
unfolding cancel_job clear_cancellation live_flag
cancellation_roundtrip now at n m s =
    let before = is_cancelled_lem at m s in
    let flagged = get_key-put_key n (now + 600000) m s.cancellations in
    let set = is_cancelled_lem at m (cancel_job now n s) in
    let removed = get_key-delete_key n m (put_key n (now + 600000) s.cancellations) in
    let cleared = is_cancelled_lem at m (clear_cancellation n (cancel_job now n s)) in
    (
      set
          ∙ ap (live_flag at) flagged
          ∙ flag-set at (n == m) _ _
          ∙ ap (λ f. if n == m then ltb at (now + 600000) else f) (sym before),
      cleared
          ∙ ap (live_flag at) removed
          ∙ flag-cleared at (n == m) _ _ _ flagged
          ∙ ap (λ f. if n == m then false else f) (sym before),
    )
