-- ===== src/Stats/Order.antt =====
-- Ascending lists, and the counts of the values below a bound, which sorting keeps.
use job_queue_event_processi.Prelude.{
  ℕ, zero, suc, ◌+◌, ◌≤◌, ◌<◌, ◌≡◌, refl, List, [], ◌∷◌, length, get_or, leb, ltb, if◌then◌else◌,
  arith,
}
use job_queue_event_processi.Stats.{insert_sorted, sort}

-- How many values are at most `v`, and how many are less than `v`.
abbrev pub count_upto : ℕ → List ℕ → ℕ
count_upto v [] = 0
count_upto v (x ∷ xs) = (if leb x v then 1 else 0) + count_upto v xs

abbrev pub count_below : ℕ → List ℕ → ℕ
count_below v [] = 0
count_below v (x ∷ xs) = (if ltb x v then 1 else 0) + count_below v xs

abbrev pub IsAbove : ℕ → List ℕ → Type 0
IsAbove b [] = Unit {0}
IsAbove b (x ∷ xs) = (b ≤ x) × IsAbove b xs

abbrev pub IsSorted : List ℕ → Type 0
IsSorted [] = Unit {0}
IsSorted (x ∷ xs) = IsAbove x xs × IsSorted xs

IsAbove-le : (a b : ℕ) (xs : List ℕ) → a ≤ b → IsAbove b xs → IsAbove a xs
IsAbove-le a b [] h p = tt
IsAbove-le a b (x ∷ xs) h p = (omega arith, IsAbove-le a b xs h p.1)

IsAbove-insert : (b x : ℕ) (xs : List ℕ) → b ≤ x → IsAbove b xs → IsAbove b (insert_sorted x xs)
unfolding insert_sorted
IsAbove-insert b x [] h p = (h, tt)
IsAbove-insert b x (y ∷ ys) h p = ground (arith, IsAbove-insert b x ys h p.1)

insert-IsSorted : (x : ℕ) (xs : List ℕ) → IsSorted xs → IsSorted (insert_sorted x xs)
unfolding insert_sorted
insert-IsSorted x [] s = (tt, tt)
insert-IsSorted x (y ∷ ys) s = ground (
  arith,
  insert-IsSorted x ys s.1,
  λ (h : x ≤ y). IsAbove-le x y ys h s.0,
  λ (h : y ≤ x). IsAbove-insert y x ys h s.0,
)

pub sort-IsSorted : (xs : List ℕ) → IsSorted (sort xs)
unfolding sort
sort-IsSorted [] = tt
sort-IsSorted (x ∷ xs) = insert-IsSorted x (sort xs) (sort-IsSorted xs)

length-insert : (x : ℕ) (xs : List ℕ) → length (insert_sorted x xs) ≡ suc (length xs)
unfolding insert_sorted
length-insert x [] = refl
length-insert x (y ∷ ys) = ground (arith, length-insert x ys)

pub length-sort : (xs : List ℕ) → length (sort xs) ≡ length xs
unfolding sort
length-sort [] = refl
length-sort (x ∷ xs) = omega (arith, length-insert x (sort xs), length-sort xs)

count_upto-insert :
    (v x : ℕ) (xs : List ℕ) → count_upto v (insert_sorted x xs) ≡ count_upto v (x ∷ xs)
unfolding insert_sorted
count_upto-insert v x [] = refl
count_upto-insert v x (y ∷ ys) = ground (arith, count_upto-insert v x ys)

count_below-insert :
    (v x : ℕ) (xs : List ℕ) → count_below v (insert_sorted x xs) ≡ count_below v (x ∷ xs)
unfolding insert_sorted
count_below-insert v x [] = refl
count_below-insert v x (y ∷ ys) = ground (arith, count_below-insert v x ys)

pub count_upto-sort : (v : ℕ) (xs : List ℕ) → count_upto v (sort xs) ≡ count_upto v xs
unfolding sort
count_upto-sort v [] = refl
count_upto-sort v (x ∷ xs) = ground (arith, count_upto-insert v x (sort xs), count_upto-sort v xs)

pub count_below-sort : (v : ℕ) (xs : List ℕ) → count_below v (sort xs) ≡ count_below v xs
unfolding sort
count_below-sort v [] = refl
count_below-sort v (x ∷ xs) =
    ground (arith, count_below-insert v x (sort xs), count_below-sort v xs)

-- Nothing of a list above `b` is below `b`.
pub count_below-IsAbove : (b v : ℕ) (xs : List ℕ) → v ≤ b → IsAbove b xs → count_below v xs ≡ 0
count_below-IsAbove b v [] h p = refl
count_below-IsAbove b v (x ∷ xs) h p = ground (arith, count_below-IsAbove b v xs h p.1)

pub IsAbove-get_or :
    (b : ℕ) (xs : List ℕ) (i : ℕ) → IsAbove b xs → i < length xs → b ≤ get_or xs i 0
IsAbove-get_or b [] i p h = absurd (omega arith)
IsAbove-get_or b (x ∷ xs) zero p h = p.0
IsAbove-get_or b (x ∷ xs) (suc i) p h = IsAbove-get_or b xs i p.1 (omega arith)

-- At place `i` of an ascending list stands a value with at most `i` values below it.
pub count_below-get_or :
    (xs : List ℕ) (i : ℕ) → IsSorted xs → i < length xs → count_below (get_or xs i 0) xs ≤ i
count_below-get_or [] i s h = absurd (omega arith)
count_below-get_or (x ∷ xs) zero s h = ground (arith, count_below-IsAbove x x xs)
count_below-get_or (x ∷ xs) (suc i) s h = ground (arith, count_below-get_or xs i s.1)

-- ... and with at least `i + 1` values up to it.
pub count_upto-get_or :
    (xs : List ℕ) (i : ℕ) → IsSorted xs → i < length xs → i < count_upto (get_or xs i 0) xs
count_upto-get_or [] i s h = absurd (omega arith)
count_upto-get_or (x ∷ xs) zero s h = ground arith
count_upto-get_or (x ∷ xs) (suc i) s h =
    ground (arith, count_upto-get_or xs i s.1, IsAbove-get_or x xs i s.0)

pub get_or_mono :
    (xs : List ℕ) (i j : ℕ) → IsSorted xs → i ≤ j → j < length xs → get_or xs i 0 ≤ get_or xs j 0
get_or_mono [] i j s h l = absurd (omega arith)
get_or_mono (x ∷ xs) zero zero s h l = omega arith
get_or_mono (x ∷ xs) zero (suc j) s h l = IsAbove-get_or x xs j s.0 (omega arith)
get_or_mono (x ∷ xs) (suc i) zero s h l = absurd (omega arith)
get_or_mono (x ∷ xs) (suc i) (suc j) s h l = get_or_mono xs i j s.1 (omega arith) (omega arith)
