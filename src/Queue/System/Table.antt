-- ===== src/Queue/System/Table.antt =====
-- Tables whose ids are unique, and what a save does to them.
use job_queue_event_processi.Prelude.{
  ℕ, zero, suc, leb, ◌≡◌, ◌∙◌, ◌==◌, ==_iff, ◌⊎◌, refl, sym, ap, Bool, Bool-cases, inl, inr,
  if◌then◌else◌, none, some, List, [], ◌∷◌, ◌++◌, take, arith,
}
use job_queue_event_processi.Queue.Job.{scheduled, Job}
use job_queue_event_processi.Queue.Repository.{
  find_by_id, save, select, order_by, insert_by, find_by_id-save,
}

-- No id occurs twice.
abbrev pub IsUnique : List Job → Type 0
IsUnique [] = Unit {0}
IsUnique (j ∷ js) = (find_by_id j.id js ≡ none) × IsUnique js

pub save-IsUnique : (j : Job) (js : List Job) → IsUnique js → IsUnique (save j js)
unfolding save find_by_id
save-IsUnique j [] h = (refl, tt)
save-IsUnique j (k ∷ ks) (fresh, h) = elim (Bool-cases (k.id == j.id)) [
  | inl same ↦ rw same (ap (λ n. find_by_id n ks) (sym ((==_iff k.id j.id).0 same)) ∙ fresh, h)
  | inr other ↦ rw other (find_by_id-save k.id j ks ∙ ground (arith, fresh), save-IsUnique j ks h)
]

pub find_by_id-append :
    (n : ℕ) (job : Job) (js : List Job)
    → find_by_id job.id js ≡ none
    → find_by_id n (js ++ job ∷ []) ≡ (if job.id == n then some job else find_by_id n js)
unfolding find_by_id
find_by_id-append n job [] h = refl
find_by_id-append n job (k ∷ ks) h = ground (arith, find_by_id-append n job ks)

pub append-IsUnique :
    (job : Job) (js : List Job)
    → find_by_id job.id js ≡ none
    → IsUnique js
    → IsUnique (js ++ job ∷ [])
unfolding find_by_id
append-IsUnique job [] h u = (refl, tt)
append-IsUnique job (k ∷ ks) h (fresh, u) =
    (ground (arith, find_by_id-append k.id job ks, fresh), append-IsUnique job ks (ground arith) u)

-- Every job of a list is of a kind.
abbrev pub AllJobs : (Job → Type 0) → List Job → Type 0
AllJobs P [] = Unit {0}
AllJobs P (j ∷ js) = P j × AllJobs P js

module _ (P : Job → Type 0) where
  pub AllJobs-select : (p : Job → Bool) (js : List Job) → AllJobs P js → AllJobs P (select p js)
  unfolding select
  AllJobs-select p [] h = tt
  AllJobs-select p (j ∷ js) (h, hs) = elim (Bool-cases (p j)) [
    | inl hit ↦ rw hit (h, AllJobs-select p js hs)
    | inr miss ↦ rw miss (AllJobs-select p js hs)
  ]

  pub AllJobs-take : (n : ℕ) (js : List Job) → AllJobs P js → AllJobs P (take n js)
  AllJobs-take zero js h = tt
  AllJobs-take (suc n) [] h = tt
  AllJobs-take (suc n) (j ∷ js) (h, hs) = (h, AllJobs-take n js hs)

  insert_by-AllJobs :
      (key : Job → ℕ) (j : Job) (js : List Job)
      → P j
      → AllJobs P js
      → AllJobs P (insert_by key j js)
  unfolding insert_by
  insert_by-AllJobs key j [] h hs = (h, tt)
  insert_by-AllJobs key j (k ∷ ks) h (g, gs) = elim (Bool-cases (leb (key j) (key k))) [
    | inl before ↦ rw before (h, (g, gs))
    | inr behind ↦ rw behind (g, insert_by-AllJobs key j ks h gs)
  ]

  pub AllJobs-order_by :
      (key : Job → ℕ) (js : List Job) → AllJobs P js → AllJobs P (order_by key js)
  unfolding order_by
  AllJobs-order_by key [] h = tt
  AllJobs-order_by key (j ∷ js) (h, hs) =
      insert_by-AllJobs key j (order_by key js) h (AllJobs-order_by key js hs)

pub AllJobs-imp :
    (P Q : Job → Type 0) (js : List Job) → ((j : Job) → P j → Q j) → AllJobs P js → AllJobs Q js
AllJobs-imp P Q [] f h = tt
AllJobs-imp P Q (j ∷ js) f (h, hs) = (f j h, AllJobs-imp P Q js f hs)

-- The row that a lookup finds.
abbrev pub IsRow : List Job → Job → Type 0
IsRow table j = find_by_id j.id table ≡ some j

IsRow-cons : (j k : Job) (js : List Job) → find_by_id j.id js ≡ none → IsRow js k → IsRow (j ∷ js) k
unfolding find_by_id
IsRow-cons j k js fresh row = elim (Bool-cases (j.id == k.id)) [
  | inl same ↦ absurd (clash ((==_iff j.id k.id).0 same))
  | inr other ↦ rw other row
]
  where
    clash : j.id ≡ k.id → ⊥
    clash e = cc (fresh, row, ap (λ n. find_by_id n js) e)

pub IsUnique-rows : (js : List Job) → IsUnique js → AllJobs (IsRow js) js
unfolding find_by_id
IsUnique-rows [] h = tt
IsUnique-rows (j ∷ js) (fresh, h) = (
  ground arith,
  AllJobs-imp (IsRow js) (IsRow (j ∷ js)) js (λ k. IsRow-cons j k js fresh) (IsUnique-rows js h),
)

-- A copy of a row of the table, from before or after a loop made it SCHEDULED.
abbrev pub IsCopy : List Job → Job → Type 0
IsCopy table j =
    (find_by_id j.id table ≡ some j)
    ⊎ (find_by_id j.id table ≡ some (record j { status = scheduled }))

pub IsRow-IsCopy : (table : List Job) (j : Job) → IsRow table j → IsCopy table j
IsRow-IsCopy table j h = inl h
