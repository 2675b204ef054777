-- ===== src/Queue/State/Keys.antt =====
-- Lookups among keys with a value, after a write and after a removal.
use job_queue_event_processi.Prelude.{ℕ, ◌==◌, ◌≡◌, if◌then◌else◌, none, some, List, [], ◌∷◌, arith}
use job_queue_event_processi.Queue.State.{put_key, delete_key, get_key}

-- No pair of a key is left behind by its removal, and the other pairs are kept.
pub get_key-delete_key :
    (n m : ℕ) (ps : List (ℕ × ℕ))
    → get_key m (delete_key n ps) ≡ (if n == m then none else get_key m ps)
unfolding get_key delete_key
get_key-delete_key n m [] = ground arith
get_key-delete_key n m ((k, u) ∷ ps) = ground (arith, get_key-delete_key n m ps)

pub get_key-put_key :
    (n v m : ℕ) (ps : List (ℕ × ℕ))
    → get_key m (put_key n v ps) ≡ (if n == m then some v else get_key m ps)
unfolding get_key put_key
get_key-put_key n v m [] = ground arith
get_key-put_key n v m ((k, u) ∷ ps) = ground (arith, get_key-put_key n v m ps)
