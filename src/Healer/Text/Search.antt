-- ===== src/Healer/Text/Search.antt =====
-- What the searches find.
use mathlib.Core.List.{append-nil}
use job_queue_event_processi.Prelude.{
  ℕ, ◌≡◌, ◌≢◌, ◌∙◌, ◌⊎◌, inl, inr, refl, sym, ap, ◌==◌, ==_iff, Bool, true, not, ◌&&◌, Bool-cases,
  Option-cases, none, some, [], ◌∷◌, ◌++◌, arith, subst,
}
use job_queue_event_processi.Healer.Text.{Text, strip, run_of, past, group_here, capture}

pub strip-append : (token rest : Text) → strip token (token ++ rest) ≡ some rest
unfolding strip
strip-append [] rest = refl
strip-append (t ∷ ts) rest = ground (arith, strip-append ts rest)

pub strip-eq : (token line rest : Text) → strip token line ≡ some rest → line ≡ token ++ rest
unfolding strip
strip-eq [] line rest h = some_inj h
  where
    some_inj : some line ≡ some rest → line ≡ rest
    some_inj e = cc e
strip-eq (t ∷ ts) [] rest h = absurd (ground arith)
strip-eq (t ∷ ts) (c ∷ cs) rest h = elim (Bool-cases (t == c)) [
  | inr other ↦ absurd (ground arith)
  | inl same ↦
      let h' : strip ts cs ≡ some rest = ground arith in
      cc (strip-eq ts cs rest h', (==_iff t c).0 same)
]

-- Every byte of a text is of a class.
abbrev pub all_of : (ℕ → Bool) → Text → Bool
all_of p [] = true
all_of p (c ∷ cs) = p c && all_of p cs

-- A text does not go on with a byte of a class.
abbrev pub stops : (ℕ → Bool) → Text → Bool
stops p [] = true
stops p (c ∷ cs) = not (p c)

pub run_of-all_of : (p : ℕ → Bool) (s : Text) → all_of p (run_of p s) ≡ true
unfolding run_of
run_of-all_of p [] = refl
run_of-all_of p (c ∷ cs) = ground (arith, run_of-all_of p cs)

run_of-past : (p : ℕ → Bool) (s : Text) → s ≡ run_of p s ++ past p s
unfolding run_of past
run_of-past p [] = refl
run_of-past p (c ∷ cs) = elim (Bool-cases (p c)) [
  | inl hit ↦ rw (run_of, past, hit) (ap (◌∷◌ c) (run_of-past p cs))
  | inr miss ↦ rw (run_of, past, miss) refl
]

past-stops : (p : ℕ → Bool) (s : Text) → stops p (past p s) ≡ true
unfolding past
past-stops p [] = refl
past-stops p (c ∷ cs) = elim (Bool-cases (p c)) [
  | inl hit ↦ rw (past, hit) (past-stops p cs)
  | inr miss ↦ rw (past, miss) (ground arith)
]

pub run_of-append :
    (p : ℕ → Bool) (g rest : Text)
    → all_of p g ≡ true
    → stops p rest ≡ true
    → run_of p (g ++ rest) ≡ g
unfolding run_of
run_of-append p [] [] h k = refl
run_of-append p [] (c ∷ cs) h k = ground arith
run_of-append p (c ∷ cs) rest h k = ground (arith, run_of-append p cs rest)

module _ (token : Text) (p : ℕ → Bool) where
  -- The expression matches nowhere in a text that is followed by another.
  abbrev pub Quiet : (start tail : Text) → Type 0
  Quiet [] tail = Unit {0}
  Quiet (c ∷ cs) tail = (group_here token p (c ∷ (cs ++ tail)) ≡ []) × Quiet cs tail

  group_here-some :
      (line rest : Text) → strip token line ≡ some rest → group_here token p line ≡ run_of p rest
  unfolding group_here
  group_here-some line rest h = rw (group_here, h) refl

  pub group_here-none : (line : Text) → strip token line ≡ none → group_here token p line ≡ []
  unfolding group_here
  group_here-none line h = rw (group_here, h) refl

  capture-hit :
      (c x : ℕ) (cs xs : Text)
      → group_here token p (c ∷ cs) ≡ x ∷ xs
      → capture token p (c ∷ cs) ≡ x ∷ xs
  unfolding capture
  capture-hit c x cs xs h = rw (capture, h) refl

  capture-miss :
      (c : ℕ) (cs : Text)
      → group_here token p (c ∷ cs) ≡ []
      → capture token p (c ∷ cs) ≡ capture token p cs
  unfolding capture
  capture-miss c cs h = rw (capture, h) refl

  capture-Quiet :
      (start tail : Text)
      → Quiet start tail
      → capture token p (start ++ tail) ≡ capture token p tail
  capture-Quiet [] tail q = refl
  capture-Quiet (c ∷ cs) tail (none_here, q) =
      capture-miss c (cs ++ tail) none_here ∙ capture-Quiet cs tail q

  capture-here :
      (t : ℕ) (ts g rest : Text)
      → token ≡ t ∷ ts
      → all_of p g ≡ true
      → g ≢ []
      → stops p rest ≡ true
      → capture token p (token ++ (g ++ rest)) ≡ g
  capture-here t ts [] rest e h some_byte k = absurd (some_byte refl)
  capture-here t ts (x ∷ xs) rest e h some_byte k =
      let behind = (x ∷ xs) ++ rest in
      let line = ap (λ s. s ++ behind) e in
      let found =
        group_here-some (token ++ behind) behind (strip-append token behind)
        ∙ run_of-append p (x ∷ xs) rest h k in
      ap (capture token p) line
      ∙ capture-hit t x (ts ++ behind) xs (ap (group_here token p) (sym line) ∙ found)

  -- The group of the leftmost match.
  pub capture-append :
      (t : ℕ) (ts start g rest : Text)
      → token ≡ t ∷ ts
      → Quiet start (token ++ (g ++ rest))
      → all_of p g ≡ true
      → g ≢ []
      → stops p rest ≡ true
      → capture token p (start ++ (token ++ (g ++ rest))) ≡ g
  capture-append t ts start g rest e q h some_byte k =
      capture-Quiet start _ q ∙ capture-here t ts g rest e h some_byte k

  -- What a match is.
  pub record IsMatch (line g : Text) : Type 0 where
    pub start : Text
    pub rest : Text
    pub parts : line ≡ start ++ (token ++ (g ++ rest))
    pub group : all_of p g ≡ true
    pub longest : stops p rest ≡ true
    pub leftmost : Quiet start (token ++ (g ++ rest))

  here-IsMatch : (line g : Text) → group_here token p line ≡ g → g ≢ [] → IsMatch line g
  here-IsMatch line g e some_byte = elim (Option-cases (strip token line)) [
    | inl missing ↦ absurd (some_byte (sym e ∙ group_here-none line missing))
    | inr (rest, found) ↦
        let same = sym (group_here-some line rest found) ∙ e in
        record {
          start = [];
          rest = past p rest;
          parts =
              strip-eq token line rest found
              ∙ ap (λ s. token ++ s) (run_of-past p rest ∙ ap (λ s. s ++ past p rest) same);
          group = subst (λ s. all_of p s ≡ true) same (run_of-all_of p rest);
          longest = past-stops p rest;
          leftmost = tt;
        }
  ]

  later-IsMatch :
      (c : ℕ) (cs g : Text) → group_here token p (c ∷ cs) ≡ [] → IsMatch cs g → IsMatch (c ∷ cs) g
  later-IsMatch c cs g none_here m = record {
    start = c ∷ m.start;
    rest = m.rest;
    parts = ap (◌∷◌ c) m.parts;
    group = m.group;
    longest = m.longest;
    leftmost = (subst (λ s. group_here token p (c ∷ s) ≡ []) m.parts none_here, m.leftmost);
  }

  clash : (x : ℕ) (xs : Text) → ◌≡◌ {A = Text} (x ∷ xs) [] → ⊥
  clash x xs e = ground (arith, e)

  group-cases : (g : Text) → (g ≡ []) ⊎ ((x : ℕ) × (xs : Text) × (g ≡ x ∷ xs))
  group-cases [] = inl refl
  group-cases (x ∷ xs) = inr (x, xs, refl)

  capture-IsMatch : (line g : Text) → capture token p line ≡ g → g ≢ [] → IsMatch line g
  unfolding capture
  capture-IsMatch [] g e some_byte = absurd (some_byte (sym e))
  capture-IsMatch (c ∷ cs) g e some_byte = elim (group-cases (group_here token p (c ∷ cs))) [
    | inl missing ↦
        later-IsMatch c cs g missing
          (capture-IsMatch cs g (sym (capture-miss c cs missing) ∙ e) some_byte)
    | inr (x, xs, found) ↦
        here-IsMatch (c ∷ cs) g (found ∙ sym (capture-hit c x cs xs found) ∙ e) some_byte
  ]

  capture-nothing : (line : Text) → capture token p line ≡ [] → Quiet line []
  capture-nothing [] h = tt
  capture-nothing (c ∷ cs) h = elim (group-cases (group_here token p (c ∷ cs))) [
    | inl missing ↦ (
      ap (λ s. group_here token p (c ∷ s)) (append-nil cs) ∙ missing,
      capture-nothing cs (sym (capture-miss c cs missing) ∙ h),
    )
    | inr (x, xs, found) ↦ absurd (clash x xs (sym (capture-hit c x cs xs found) ∙ h))
  ]

  -- A search either finds nothing, and the expression matches nowhere; or it returns the group of
  -- the leftmost match, which is the longest run of its class behind the token.
  pub capture_decides :
      (line : Text)
      → ((capture token p line ≡ []) × Quiet line [])
        ⊎ ((capture token p line ≢ []) × IsMatch line (capture token p line))
  capture_decides line = elim (group-cases (capture token p line)) [
    | inl nothing ↦ inl (nothing, capture-nothing line nothing)
    | inr (x, xs, found) ↦
        let some_byte : capture token p line ≢ [] = λ e. clash x xs (sym found ∙ e) in
        inr (some_byte, capture-IsMatch line (capture token p line) refl some_byte)
  ]
