-- ===== src/Agent/Observer/Recent.antt =====
-- Which incidents the observer takes for duplicates.
use job_queue_event_processi.Prelude.{
  ℕ, ltb, ◌-◌, ◌≤◌, ◌≡◌, ◌∙◌, refl, sym, ap, inl, inr, Bool, true, false, Bool-cases, if◌then◌else◌,
  List, [], ◌∷◌, ◌++◌, arith,
}
use job_queue_event_processi.Healer.Text.{Text}
use job_queue_event_processi.Agent.Observer.{Seen, purge, is_seen, is_duplicate}

module _ (ttl : ℕ) where
  -- What was seen at most `ttl` ago.
  unfoldable pub lately : (now : ℕ) → Seen → Seen
  lately now [] = []
  lately now ((key, time) ∷ seen) =
      let rest = lately now seen in if ltb ttl (now - time) then rest else (key, time) ∷ rest

  -- The verdict on each arrival, by all the arrivals that were let through before it: an arrival is a
  -- duplicate if one with its key was let through at most `ttl` before.
  unfoldable pub verdicts : (passed : Seen) → (arrivals : Seen) → List Bool
  verdicts passed [] = []
  verdicts passed ((key, now) ∷ arrivals) =
      let skip = verdicts passed arrivals in
      let pass = verdicts (passed ++ ((key, now) ∷ [])) arrivals in
      if is_seen key (lately now passed) then true ∷ skip else false ∷ pass

  -- The observer's verdicts.
  unfoldable pub observed : Seen → (arrivals : Seen) → List Bool
  observed seen [] = []
  observed seen ((key, now) ∷ arrivals) =
      let r = is_duplicate ttl key now seen in r.0 ∷ observed r.1 arrivals

  -- The times do not fall, from `lo` to `hi`.
  abbrev pub Ascending : (lo : ℕ) → Seen → (hi : ℕ) → Type 0
  Ascending lo [] hi = lo ≤ hi
  Ascending lo ((key, time) ∷ seen) hi = (lo ≤ time) × Ascending time seen hi

  Ascending-append :
      (lo hi now : ℕ) (seen : Seen) (key : Text)
      → Ascending lo seen hi
      → hi ≤ now
      → Ascending lo (seen ++ ((key, now) ∷ [])) now
  Ascending-append lo hi now [] key a h = (omega arith, omega arith)
  Ascending-append lo hi now ((k, time) ∷ seen) key (le, a) h =
      (le, Ascending-append time hi now seen key a h)

  -- From a fresh entry on all are fresh.
  lately-all :
      (now t hi : ℕ) (seen : Seen)
      → Ascending t seen hi
      → ltb ttl (now - t) ≡ false
      → lately now seen ≡ seen
  unfolding lately
  lately-all now t hi [] a h = refl
  lately-all now t hi ((key, time) ∷ seen) (le, a) h =
      let fresh : ltb ttl (now - time) ≡ false = ground arith in
      rw (lately, fresh) (ap (◌∷◌ (key, time)) (lately-all now time hi seen a fresh))

  purge-lately :
      (before now lo hi : ℕ) (seen : Seen)
      → before ≤ now
      → Ascending lo seen hi
      → purge ttl now (lately before seen) ≡ lately now seen
  unfolding lately purge
  purge-lately before now lo hi [] h a = refl
  purge-lately before now lo hi ((key, time) ∷ seen) h (le, a) =
      let later = purge-lately before now time hi seen h a in
      elim (Bool-cases (ltb ttl (before - time))) [
        | inl stale ↦
            let still : ltb ttl (now - time) ≡ true = ground arith in
            rw (lately, stale, still) later
        | inr fresh ↦ elim (Bool-cases (ltb ttl (now - time))) [
          | inl stale ↦ rw (lately, purge, fresh, stale) later
          | inr still ↦
              rw (lately, purge, fresh, still)
                (ap (◌∷◌ (key, time)) (
                  lately-all before time hi seen a fresh
                  ∙ sym (lately-all now time hi seen a still)))
        ]
      ]

  lately-append :
      (now : ℕ) (seen : Seen) (key : Text)
      → lately now (seen ++ ((key, now) ∷ [])) ≡ lately now seen ++ ((key, now) ∷ [])
  unfolding lately
  lately-append now [] key =
      let fresh : ltb ttl (now - now) ≡ false = ground arith in rw (lately, fresh) refl
  lately-append now ((k, time) ∷ seen) key = elim (Bool-cases (ltb ttl (now - time))) [
    | inl stale ↦ rw (lately, stale) (lately-append now seen key)
    | inr fresh ↦ rw (lately, fresh) (ap (◌∷◌ (k, time)) (lately-append now seen key))
  ]

  Ascending-later :
      (lo hi now : ℕ) (seen : Seen) → Ascending lo seen hi → hi ≤ now → Ascending lo seen now
  Ascending-later lo hi now [] a h = omega arith
  Ascending-later lo hi now ((k, time) ∷ seen) (le, a) h =
      (le, Ascending-later time hi now seen a h)

  observed-lately :
      (before lo hi : ℕ) (passed arrivals : Seen)
      → Ascending lo passed before
      → Ascending before arrivals hi
      → observed (lately before passed) arrivals ≡ verdicts passed arrivals
  unfolding observed verdicts is_duplicate
  observed-lately before lo hi passed [] a b = refl
  observed-lately before lo hi passed ((key, now) ∷ arrivals) a (le, b) =
      let left = purge-lately before now lo before passed le a in
      elim (Bool-cases (is_seen key (lately now passed))) [
        | inl old ↦
            rw (observed, verdicts, is_duplicate, left, old)
              (ap (◌∷◌ true) (
                observed-lately now lo hi passed arrivals
                  (Ascending-later lo before now passed a le) b))
        | inr new ↦
            rw (observed, verdicts, is_duplicate, left, new)
              (ap (◌∷◌ false) (
                ap (λ s. observed s arrivals) (sym (lately-append now passed key))
                ∙ observed-lately now lo hi (passed ++ ((key, now) ∷ [])) arrivals
                    (Ascending-append lo before now passed key a le) b))
      ]

  -- Where the clock does not fall back, the observer, which starts with an empty dictionary and drops
  -- expired entries from its front only, gives the same verdict on every arrival as the description
  -- that keeps all arrivals: a duplicate is what has the key of an arrival that was let through at most
  -- `ttl` before.
  pub observed-verdicts :
      (hi : ℕ) (arrivals : Seen)
      → Ascending 0 arrivals hi
      → observed [] arrivals ≡ verdicts [] arrivals
  unfolding lately
  observed-verdicts hi arrivals h = observed-lately 0 0 hi [] arrivals (omega arith) h
