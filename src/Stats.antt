-- ===== src/Stats.antt =====
-- The metric helpers of scalability-test.js (`pct`, `avg`, `minVal`, `maxVal`, `percentile`) and
-- `getPercentile` of test-runner.js, over latencies in whole milliseconds.
-- `sort` is the numeric `Array.prototype.sort` of the runtime. The double arithmetic of
-- `Math.round(sum / n)` is taken as exact, and so is that of `Math.ceil((p / 100) * n)`: for the
-- percentages of the scripts, 50, 75, 90 and 99, and up to 200000 values it gives the ceiling of
-- the exact product; for some other percentages, such as 7 with 100 values, it does not.
pub mod Order
pub mod Percentile
use job_queue_event_processi.Prelude.{
  ℕ, ◌+◌, ◌*◌, ◌-◌, ◌/◌, min, max, List, [], ◌∷◌, length, get_or, leb, ltb, ◌==◌, if◌then◌else◌,
}

pub sum : List ℕ → ℕ
sum [] = 0
sum (x ∷ xs) = x + sum xs

pub insert_sorted : ℕ → List ℕ → List ℕ
insert_sorted x [] = x ∷ []
insert_sorted x (y ∷ ys) = if leb x y then x ∷ y ∷ ys else y ∷ insert_sorted x ys

pub sort : List ℕ → List ℕ
unfolding insert_sorted
sort [] = []
sort (x ∷ xs) = insert_sorted x (sort xs)

unfoldable pub avg : List ℕ → ℕ
unfolding sum
avg [] = 0
avg (x ∷ xs) = let n = length (x ∷ xs) in (2 * sum (x ∷ xs) + n) / (2 * n)

-- `Math.min(...arr)` of a list that starts with `x`.
pub min_from : ℕ → List ℕ → ℕ
min_from x [] = x
min_from x (y ∷ ys) = min_from (min x y) ys

pub max_from : ℕ → List ℕ → ℕ
max_from x [] = x
max_from x (y ∷ ys) = max_from (max x y) ys

unfoldable pub min_val : List ℕ → ℕ
unfolding min_from
min_val [] = 0
min_val (x ∷ xs) = min_from x xs

unfoldable pub max_val : List ℕ → ℕ
unfolding max_from
max_val [] = 0
max_val (x ∷ xs) = max_from x xs

-- `Math.max(0, Math.ceil((p / 100) * n) - 1)`.
pub rank : ℕ → ℕ → ℕ
rank p n = (p * n + 99) / 100 - 1

unfoldable pub percentile : List ℕ → ℕ → ℕ
unfolding sort rank
percentile [] p = 0
percentile (x ∷ xs) p = let sorted = sort (x ∷ xs) in get_or sorted (rank p (length sorted)) 0

-- `getPercentile` of test-runner.js.
unfoldable pub get_percentile : List ℕ → ℕ → ℕ
unfolding sort rank
get_percentile [] p = 0
get_percentile (x ∷ xs) p = let sorted = sort (x ∷ xs) in get_or sorted (rank p (length sorted)) 0
