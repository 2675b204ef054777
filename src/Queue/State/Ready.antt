-- ===== src/Queue/State/Ready.antt =====
-- The members of the delay queue that are due.
use job_queue_event_processi.Prelude.{
  ℕ, ◌≤◌, ◌≡◌, ◌∙◌, refl, ◌==◌, Bool, true, false, ◌||◌, some, List, [], ◌∷◌, arith,
}
use job_queue_event_processi.Queue.State.{
  Backend, get_key, get_ready_jobs, insert_scored, by_score, due,
}

-- An id is in a list.
abbrev pub has : ℕ → List ℕ → Bool
has m [] = false
has m (n ∷ ns) = n == m || has m ns

due-insert_scored :
    (m now : ℕ) (p : ℕ × ℕ) (ps : List (ℕ × ℕ))
    → has m (due now (insert_scored p ps)) ≡ has m (due now (p ∷ ps))
unfolding due insert_scored
due-insert_scored m now (n, t) [] = refl
due-insert_scored m now (n, t) ((k, u) ∷ ps) = ground (arith, due-insert_scored m now (n, t) ps)

due-by_score : (m now : ℕ) (ps : List (ℕ × ℕ)) → has m (due now (by_score ps)) ≡ has m (due now ps)
unfolding due by_score
due-by_score m now [] = refl
due-by_score m now ((n, t) ∷ ps) =
    due-insert_scored m now (n, t) (by_score ps) ∙ ground (arith, due-by_score m now ps)

due-get_key :
    (m t now : ℕ) (ps : List (ℕ × ℕ)) → get_key m ps ≡ some t → t ≤ now → has m (due now ps) ≡ true
unfolding due get_key
due-get_key m t now [] e h = ground arith
due-get_key m t now ((n, u) ∷ ps) e h = ground (arith, due-get_key m t now ps)

-- An id with a score up to `now` is ready.
pub ready-get_key :
    (m t now : ℕ) (s : Backend)
    → get_key m s.delay_queue ≡ some t
    → t ≤ now
    → has m (get_ready_jobs now s) ≡ true
unfolding get_ready_jobs
ready-get_key m t now s e h =
    due-by_score m now s.delay_queue ∙ due-get_key m t now s.delay_queue e h
