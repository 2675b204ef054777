-- ===== src/Queue/Limiter/Window.antt =====
-- What the sliding window of the rate limiter lets through over a sequence of requests.
use job_queue_event_processi.Prelude.{
  ℕ, zero, suc, ◌+◌, ◌≤◌, ◌<◌, ◌≡◌, refl, ap, ◌∙◌, leb, false, not, if◌then◌else◌, List, [], ◌∷◌,
  length, replicate, arith, Bool-cases, inl, inr,
}
use job_queue_event_processi.Queue.Limiter.{remove_upto, member, add, allow}

-- Requests at the given times, in order: the sorted set and the times let through, newest first.
pub requests : (window limit : ℕ) → List ℕ → (ts passed : List ℕ) → List ℕ × List ℕ
requests window limit [] ts passed = (ts, passed)
requests window limit (now ∷ later) ts passed =
    let a = allow window limit now ts in
    requests window limit later a.1 (if a.0 then now ∷ passed else passed)

-- Strictly ascending times, the first above `t`.
abbrev pub Ascending : ℕ → List ℕ → Type 0
Ascending t [] = Unit {0}
Ascending t (u ∷ us) = (t < u) × Ascending u us

abbrev pub last : ℕ → List ℕ → ℕ
last t [] = t
last t (u ∷ us) = last u us

abbrev Upto : ℕ → List ℕ → Type 0
Upto now [] = Unit {0}
Upto now (t ∷ ts) = (t ≤ now) × Upto now ts

Upto-mono : (a b : ℕ) (ts : List ℕ) → a ≤ b → Upto a ts → Upto b ts
Upto-mono a b [] h u = tt
Upto-mono a b (t ∷ ts) h u = (omega arith, Upto-mono a b ts h u.1)

Upto-remove : (b now window : ℕ) (ts : List ℕ) → Upto b ts → Upto b (remove_upto now window ts)
unfolding remove_upto
Upto-remove b now window [] u = tt
Upto-remove b now window (t ∷ ts) u = ground (arith, Upto-remove b now window ts u.1)

not-member : (now t : ℕ) (ts : List ℕ) → t < now → Upto t ts → member now ts ≡ false
unfolding member
not-member now t [] h u = refl
not-member now t (x ∷ ts) h u = ground (arith, not-member now t ts h u.1)

-- Removing once more at a later time forgets the earlier removal.
remove_upto-remove_upto :
    (a b window : ℕ) (ts : List ℕ)
    → a ≤ b
    → remove_upto b window (remove_upto a window ts) ≡ remove_upto b window ts
unfolding remove_upto
remove_upto-remove_upto a b window [] h = refl
remove_upto-remove_upto a b window (t ∷ ts) h =
    ground (arith, remove_upto-remove_upto a b window ts h)

-- At time `t` the set holds what passed within the window, and no more than the limit.
record Inv (window limit t : ℕ) (ts passed : List ℕ) : Type 0 where
  held : (b : ℕ) → t ≤ b → remove_upto b window ts ≡ remove_upto b window passed
  few : length ts ≤ limit
  past : Upto t ts

length-remove : (now window : ℕ) (ts : List ℕ) → length (remove_upto now window ts) ≤ length ts
unfolding remove_upto
length-remove now window [] = omega arith
length-remove now window (t ∷ ts) = ground (arith, length-remove now window ts)

module _ (window limit : ℕ) where
  module _ (t now : ℕ) (ts passed : List ℕ) (h : t < now) (inv : Inv window limit t ts passed) where
    kept_held :
        (b : ℕ)
        → now ≤ b
        → remove_upto b window (remove_upto now window ts) ≡ remove_upto b window passed
    kept_held b later = remove_upto-remove_upto now b window ts later ∙ inv.held b (omega arith)

    kept_past : Upto now (remove_upto now window ts)
    kept_past = Upto-mono t now _ (omega arith) (Upto-remove t now window ts inv.past)

    pass_held :
        (b : ℕ)
        → now ≤ b
        → remove_upto b window (now ∷ remove_upto now window ts)
          ≡ remove_upto b window (now ∷ passed)
    unfolding remove_upto
    pass_held b later = ground (arith, kept_held b later)

    add-fresh : add now (remove_upto now window ts) ≡ now ∷ remove_upto now window ts
    unfolding add
    add-fresh =
        rw (not-member now t (remove_upto now window ts) h (Upto-remove t now window ts inv.past))

    allow-Inv :
        let a = allow window limit now ts in
        Inv window limit now a.1 (if a.0 then now ∷ passed else passed)
    unfolding allow
    allow-Inv = elim (Bool-cases (leb limit (length (remove_upto now window ts)))) [
      | inl full ↦ rw full (record {
        held = kept_held;
        few = omega (arith, length-remove now window ts, inv.few);
        past = kept_past;
      })
      | inr room ↦
          rw (room, add-fresh)
            (record { held = pass_held; few = ground arith; past = (omega arith, kept_past) })
    ]

  requests-Inv :
      (t : ℕ) (times ts passed : List ℕ)
      → Ascending t times
      → Inv window limit t ts passed
      → let r = requests window limit times ts passed in Inv window limit (last t times) r.0 r.1
  unfolding requests
  requests-Inv t [] ts passed asc inv = inv
  requests-Inv t (now ∷ later) ts passed asc inv =
      let a = allow window limit now ts in
      requests-Inv now later a.1 (if a.0 then now ∷ passed else passed) asc.1
        (allow-Inv t now ts passed asc.0 inv)

  empty-Inv : (t : ℕ) → Inv window limit t [] []
  empty-Inv t = record { held = λ b h. refl; few = omega arith; past = tt }

  -- The times that a sequence of requests let through, starting with an empty set.
  abbrev pub passed_of : List ℕ → List ℕ
  passed_of times = (requests window limit times [] []).1

  -- After requests at strictly ascending times, at most `limit` of those that were let through
  -- lie within the window that ends at the last one.
  pub window_bound :
      (start : ℕ) (times : List ℕ)
      → Ascending start times
      → length (remove_upto (last start times) window (passed_of times)) ≤ limit
  window_bound start times asc =
      let inv = requests-Inv start times [] [] asc (empty-Inv start) in
      let t = last start times in
      omega (
        arith,
        ap length (inv.held t (omega arith)),
        length-remove t window (requests window limit times [] []).0,
        inv.few,
      )

  allow-decides :
      (now : ℕ) (ts : List ℕ)
      → (allow window limit now ts).0 ≡ not (leb limit (length (remove_upto now window ts)))
  unfolding allow
  allow-decides now ts = ground arith

  -- After requests at strictly ascending times, the next one is let through exactly if fewer than
  -- `limit` of those that were let through lie within the window before it.
  pub window_decision :
      (start : ℕ) (times : List ℕ) (now : ℕ)
      → Ascending start times
      → last start times < now
      → (allow window limit now (requests window limit times [] []).0).0
        ≡ not (leb limit (length (remove_upto now window (passed_of times))))
  window_decision start times now asc after =
      let inv = requests-Inv start times [] [] asc (empty-Inv start) in
      rw (← inv.held now (omega arith)) (allow-decides now _)

-- The set after one request or more at time `t`, where it was empty.
same_ms_step :
    (window limit t : ℕ) (passed : List ℕ) (n : ℕ)
    → 1 ≤ window
    → 2 ≤ limit
    → length (requests window limit (replicate n t) (t ∷ []) passed).1 ≡ n + length passed
unfolding requests allow remove_upto add member
same_ms_step window limit t passed zero w l = omega arith
same_ms_step window limit t passed (suc n) w l =
    ground (arith, same_ms_step window limit t (t ∷ passed) n w l)

-- Any number of requests in one millisecond is let through, for every limit from 2 on: the set
-- holds one member for each time, not for each request.
pub same_millisecond :
    (window limit t n : ℕ)
    → 1 ≤ window
    → 2 ≤ limit
    → length (passed_of window limit (replicate n t)) ≡ n
unfolding requests allow remove_upto add member
same_millisecond window limit t zero w l = refl
same_millisecond window limit t (suc n) w l =
    ground (arith, same_ms_step window limit t (t ∷ []) n w l)
