-- ===== src/Queue/System/Rows.antt =====
-- Tables that keep their rows: the same ids, unique if they were, of which each row goes on by changes
-- of one kind.
use job_queue_event_processi.Prelude.{
  ℕ, ◌≡◌, ◌∙◌, ◌==◌, ==_iff, ◌⊎◌, refl, sym, ap, subst, Bool-cases, inl, inr, Option, none, some,
  List,
}
use job_queue_event_processi.Queue.Job.{pending, scheduled, retry, Job}
use job_queue_event_processi.Queue.Repository.{find_by_id, save, find_by_id-save}
use job_queue_event_processi.Queue.System.Life.{
  Kind, by_watcher, view, Life, here, once, scheduling, Life-trans,
}
use job_queue_event_processi.Queue.System.Table.{IsUnique, save-IsUnique, IsCopy}

abbrev pub RowKept : Kind → Option Job → Option Job → Type 0
RowKept k none none = Unit {0}
RowKept k none (some b) = ⊥
RowKept k (some a) none = ⊥
RowKept k (some a) (some b) = Life k (view a) (view b) × (b.type ≡ a.type)

pub RowKept-refl : (k : Kind) (o : Option Job) → RowKept k o o
RowKept-refl k none = tt
RowKept-refl k (some a) = (here, refl)

RowKept-trans : (k : Kind) (a b c : Option Job) → RowKept k a b → RowKept k b c → RowKept k a c
RowKept-trans k none none none h m = tt
RowKept-trans k none none (some c) h m = absurd m
RowKept-trans k none (some b) c h m = absurd h
RowKept-trans k (some a) none c h m = absurd h
RowKept-trans k (some a) (some b) none h m = absurd m
RowKept-trans k (some a) (some b) (some c) (l, s) (m, t) = (Life-trans l m, t ∙ s)

pub record Keeps (k : Kind) (js js' : List Job) : Type 0 where
  pub unique : IsUnique js → IsUnique js'
  pub rows : (n : ℕ) → RowKept k (find_by_id n js) (find_by_id n js')

pub Keeps-refl : {k : Kind} (js : List Job) → Keeps k js js
Keeps-refl js = record { unique = λ u. u; rows = λ n. RowKept-refl _ (find_by_id n js) }

pub Keeps-trans :
    {k : Kind} {js js' js'' : List Job} → Keeps k js js' → Keeps k js' js'' → Keeps k js js''
Keeps-trans h l = record {
  unique = λ u. l.unique (h.unique u);
  rows = λ n. RowKept-trans _ _ _ _ (h.rows n) (l.rows n);
}

-- The save of a row that goes on in its life.
pub save-Keeps :
    {k : Kind} (job row : Job) (js : List Job)
    → find_by_id row.id js ≡ some job
    → Life k (view job) (view row)
    → row.type ≡ job.type
    → Keeps k js (save row js)
save-Keeps job row js found life kind = record {
  unique = save-IsUnique row js;
  rows = λ n. rw (find_by_id-save n row js) (elim (Bool-cases (row.id == n)) [
    | inl same ↦
        rw same
          (rw (sym (ap (λ k. find_by_id k js) ((==_iff row.id n).0 same)) ∙ found) (life, kind))
    | inr other ↦ rw other (RowKept-refl _ (find_by_id n js))
  ]);
}

abbrev pub as_scheduled : Job → Job
as_scheduled job = record job { status = scheduled }

-- The save by which a loop makes a copy of a row SCHEDULED.
pub schedule-Keeps :
    (job : Job) (js : List Job)
    → IsCopy js job
    → (job.status ≡ pending) ⊎ (job.status ≡ retry)
    → Keeps by_watcher js (save (as_scheduled job) js)
schedule-Keeps job js (inl row) from =
    save-Keeps job (as_scheduled job) js row (once (scheduling from refl refl)) refl
schedule-Keeps job js (inr row) from =
    save-Keeps (as_scheduled job) (as_scheduled job) js row here refl

pub some_inj : (a b : Job) (o : Option Job) → o ≡ some a → o ≡ some b → a ≡ b
some_inj a b o e f = cc (e, f)

copies-scheduled :
    (j k : Job) (o : Option Job)
    → (o ≡ some j) ⊎ (o ≡ some (as_scheduled j))
    → (o ≡ some k) ⊎ (o ≡ some (as_scheduled k))
    → (some (as_scheduled j) ≡ some k) ⊎ (some (as_scheduled j) ≡ some (as_scheduled k))
copies-scheduled j k o (inl e) (inl f) = inr (ap (λ a. some (as_scheduled a)) (some_inj j k o e f))
copies-scheduled j k o (inl e) (inr f) =
    inr (ap (λ a. some (as_scheduled a)) (some_inj j (as_scheduled k) o e f))
copies-scheduled j k o (inr e) (inl f) = inl (sym e ∙ f)
copies-scheduled j k o (inr e) (inr f) = inr (sym e ∙ f)

pub schedule-IsCopy :
    (j k : Job) (js : List Job) → IsCopy js j → IsCopy js k → IsCopy (save (as_scheduled j) js) k
schedule-IsCopy j k js h g =
    rw (find_by_id-save k.id (as_scheduled j) js) (elim (Bool-cases (j.id == k.id)) [
      | inl same ↦ rw same (
          copies-scheduled j k (find_by_id k.id js)
            (subst (λ n. (find_by_id n js ≡ some j) ⊎ (find_by_id n js ≡ some (as_scheduled j)))
              ((==_iff j.id k.id).0 same) h)
            g)
      | inr other ↦ rw other g
    ])
