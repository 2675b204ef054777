-- ===== src/Stats/Percentile.antt =====
-- What `percentile` returns.
use job_queue_event_processi.Prelude.{
  ℕ, ◌+◌, ◌*◌, ◌≤◌, ◌<◌, ◌≡◌, ◌⊎◌, refl, max, List, [], ◌∷◌, length, get_or, arith,
}
use job_queue_event_processi.Stats.{sort, rank, percentile, get_percentile, max_val, max_from}
use job_queue_event_processi.Stats.Order.{
  count_upto, count_below, sort-IsSorted, length-sort, count_upto-sort, count_below-sort,
  count_below-get_or, count_upto-get_or, get_or_mono,
}

rank-lt : (p n : ℕ) → p ≤ 100 → 0 < n → rank p n < n
unfolding rank
rank-lt p n h k = grind arith

rank-above : (p n : ℕ) → 1 ≤ p → 0 < n → rank p n * 100 < p * n
unfolding rank
rank-above p n h k = grind arith

rank-below : (p n : ℕ) → p * n ≤ (rank p n + 1) * 100
unfolding rank
rank-below p n = grind arith

rank_mono : (p q n : ℕ) → p ≤ q → rank p n ≤ rank q n
unfolding rank
rank_mono p q n h = grind arith

percentile-get_or :
    (arr : List ℕ) (p : ℕ)
    → 0 < length arr
    → percentile arr p ≡ get_or (sort arr) (rank p (length arr)) 0
unfolding percentile
percentile-get_or [] p h = absurd (omega arith)
percentile-get_or (x ∷ xs) p h = rw (length-sort (x ∷ xs))

module _ (arr : List ℕ) (p : ℕ) (h : 0 < length arr) (u : p ≤ 100) where
  rank-lt_sort : rank p (length arr) < length (sort arr)
  rank-lt_sort = omega (arith, length-sort arr, rank-lt p (length arr) u h)

  percentile_counts :
      (count_below (percentile arr p) arr ≤ rank p (length arr))
      × (rank p (length arr) < count_upto (percentile arr p) arr)
  percentile_counts =
      let v = get_or (sort arr) (rank p (length arr)) 0 in
      rw (percentile-get_or arr p h, ← count_below-sort v arr, ← count_upto-sort v arr)
        (
          count_below-get_or (sort arr) _ (sort-IsSorted arr) rank-lt_sort,
          count_upto-get_or (sort arr) _ (sort-IsSorted arr) rank-lt_sort,
        )

-- A percentage that the scripts ask for.
abbrev pub IsAsked : ℕ → Type 0
IsAsked p = (p ≡ 50) ⊎ ((p ≡ 75) ⊎ ((p ≡ 90) ⊎ (p ≡ 99)))

-- Nearest rank: for each percentage that the scripts ask for, 50, 75, 90 and 99, and a list of 1 to
-- 200000 values, fewer than p % of the values lie below the result, and at least p % lie at or
-- below it.
pub percentile_rank :
    (arr : List ℕ) (p : ℕ)
    → 0 < length arr
    → length arr ≤ 200000
    → IsAsked p
    → (count_below (percentile arr p) arr * 100 < p * length arr)
      × (p * length arr ≤ count_upto (percentile arr p) arr * 100)
percentile_rank arr p h few asked =
    let l : 1 ≤ p = omega (arith, asked) in
    let u : p ≤ 100 = omega (arith, asked) in
    let (below, upto) = percentile_counts arr p h u in
    (
      omega (arith, below, rank-above p (length arr) l h),
      omega (arith, upto, rank-below p (length arr)),
    )

-- A higher percentage never gives a smaller percentile, up to 100 %.
pub percentile_mono :
    (arr : List ℕ) (p q : ℕ) → p ≤ q → q ≤ 100 → percentile arr p ≤ percentile arr q
percentile_mono [] p q h u = unfold percentile in omega arith
percentile_mono (x ∷ xs) p q h u =
    let arr = x ∷ xs in
    let some_value : 0 < length arr = omega arith in
    rw (percentile-get_or arr p some_value, percentile-get_or arr q some_value)
      (get_or_mono (sort arr) _ _ (sort-IsSorted arr) (rank_mono p q (length arr) h)
        (rank-lt_sort arr q some_value u))

abbrev IsBounded : ℕ → List ℕ → Type 0
IsBounded m [] = Unit {0}
IsBounded m (x ∷ xs) = (x ≤ m) × IsBounded m xs

max_from-le : (x : ℕ) (xs : List ℕ) → x ≤ max_from x xs
unfolding max_from
max_from-le x [] = omega arith
max_from-le x (y ∷ ys) = omega (arith, max_from-le (max x y) ys)

max_from-IsBounded : (x : ℕ) (xs : List ℕ) → IsBounded (max_from x xs) xs
unfolding max_from
max_from-IsBounded x [] = tt
max_from-IsBounded x (y ∷ ys) =
    (omega (arith, max_from-le (max x y) ys), max_from-IsBounded (max x y) ys)

count_below-all : (m v : ℕ) (xs : List ℕ) → m < v → IsBounded m xs → count_below v xs ≡ length xs
count_below-all m v [] h b = refl
count_below-all m v (x ∷ xs) h b = ground (arith, count_below-all m v xs h b.1)

max_val-IsBounded : (arr : List ℕ) → IsBounded (max_val arr) arr
unfolding max_val
max_val-IsBounded [] = tt
max_val-IsBounded (x ∷ xs) = (max_from-le x xs, max_from-IsBounded x xs)

percentile-not_above :
    (arr : List ℕ) (p : ℕ) → 0 < length arr → p ≤ 100 → ¬ (max_val arr < percentile arr p)
percentile-not_above arr p h u above = omega (
  arith,
  count_below-all _ _ arr above (max_val-IsBounded arr),
  percentile_counts arr p h u,
  rank-lt p (length arr) u h,
)

-- No percentile up to 100 % exceeds the largest value, also for the empty list.
pub percentile-le-max_val : (arr : List ℕ) (p : ℕ) → p ≤ 100 → percentile arr p ≤ max_val arr
percentile-le-max_val [] p u = unfold percentile max_val in omega arith
percentile-le-max_val (x ∷ xs) p u = omega (arith, percentile-not_above (x ∷ xs) p (omega arith) u)

-- test-runner.js and scalability-test.js compute the same percentile of every list.
pub get_percentile-eq-percentile : (arr : List ℕ) (p : ℕ) → get_percentile arr p ≡ percentile arr p
unfolding get_percentile percentile
get_percentile-eq-percentile [] p = refl
get_percentile-eq-percentile (x ∷ xs) p = refl
