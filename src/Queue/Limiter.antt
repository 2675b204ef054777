-- ===== src/Queue/Limiter.antt =====
-- service/RateLimiterService.java: the Lua script on a Redis sorted set whose members are their own
-- scores. A Redis command on a sorted set is a function of the list of its members.
pub mod Window
use job_queue_event_processi.Prelude.{
  ℕ, suc, ◌+◌, ◌-◌, leb, ltb, ◌==◌, Bool, true, false, if◌then◌else◌, List, [], ◌∷◌, length,
}

-- ZREMRANGEBYSCORE key 0 (now - window): keeps the members above the bound. Where the bound is
-- negative nothing is removed.
pub remove_upto : (now window : ℕ) → List ℕ → List ℕ
remove_upto now window [] = []
remove_upto now window (t ∷ ts) =
    let rest = remove_upto now window ts in if leb (t + window) now then rest else t ∷ rest

pub member : ℕ → List ℕ → Bool
member t [] = false
member t (u ∷ us) = if u == t then true else member t us

-- ZADD key now now: a member that is there already keeps its place.
pub add : ℕ → List ℕ → List ℕ
unfolding member
add t ts = if member t ts then ts else t ∷ ts

-- The script, which runs atomically: whether the request is allowed, and the set after it. The
-- expiry that PEXPIRE sets drops the set when all its members have left the window.
unfoldable pub allow : (window limit now : ℕ) → List ℕ → Bool × List ℕ
unfolding remove_upto add
allow window limit now ts =
    let kept = remove_upto now window ts in
    if leb limit (length kept) then (false, kept) else (true, add now kept)
