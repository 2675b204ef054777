-- ===== src/Healer/Text/Keys.antt =====
-- Where the expressions with a key and an equals sign match.
use mathlib.Core.List.{append_assoc}
use job_queue_event_processi.Prelude.{
  ℕ, ◌≡◌, ◌≢◌, ◌∙◌, refl, sym, ap, ◌==◌, inl, inr, Bool, true, false, not, Option-cases, Option,
  none, some, [], ◌∷◌, ◌++◌, length, length-append, arith,
}
use job_queue_event_processi.Healer.Text.{Text, strip, starts_with, contains, run_of, group_here}
use job_queue_event_processi.Healer.Text.Search.{
  all_of, strip-append, strip-eq, run_of-append, group_here-none, Quiet,
}

abbrev pub no_equals : ℕ → Bool
no_equals c = not (c == 61)

pub all_of-append :
    (p : ℕ → Bool) (s t : Text) → all_of p s ≡ true → all_of p t ≡ true → all_of p (s ++ t) ≡ true
all_of-append p [] t h k = k
all_of-append p (c ∷ cs) t h k = grind (arith, all_of-append p cs t)

-- The text in front of the first equals sign.
key_before :
    (u : Text) (rest : Text) → all_of no_equals u ≡ true → run_of no_equals (u ++ (61 ∷ rest)) ≡ u
key_before u rest h = run_of-append no_equals u (61 ∷ rest) h refl

abbrev pub last_of : ℕ → Text → ℕ
last_of d [] = d
last_of d (c ∷ cs) = last_of c cs

pub last_of-append :
    (d : ℕ) (s : Text) (c : ℕ) (cs : Text) → last_of d (s ++ (c ∷ cs)) ≡ last_of c cs
last_of-append d [] c cs = refl
last_of-append d (x ∷ xs) c cs = last_of-append x xs c cs

module _ (name : Text) (p : ℕ → Bool) (named : all_of no_equals name ≡ true) where
  abbrev pub token : Text
  token = name ++ (61 ∷ [])

  -- Where the key in front of the first equals sign is another, the expression does not match.
  other-key :
      (u rest : Text)
      → all_of no_equals u ≡ true
      → u ≢ name
      → group_here token p (u ++ (61 ∷ rest)) ≡ []
  other-key u rest h other = elim (Option-cases (strip token (u ++ (61 ∷ rest)))) [
    | inl missing ↦ group_here-none token p (u ++ (61 ∷ rest)) missing
    | inr (behind, found) ↦
        let same =
          strip-eq token (u ++ (61 ∷ rest)) behind found ∙ append_assoc name (61 ∷ []) behind in
        absurd (
          other
            (sym (key_before u rest h) ∙ ap (run_of no_equals) same ∙ key_before name behind named))
  ]

  -- The token itself is not met earlier, in a text without an equals sign.
  pub Quiet-own :
      (s rest : Text) → all_of no_equals s ≡ true → Quiet token p s (name ++ (61 ∷ rest))
  Quiet-own [] rest h = tt
  Quiet-own (c ∷ cs) rest h = (
    ap (λ t. group_here token p (c ∷ t)) (sym (append_assoc cs name (61 ∷ rest)))
        ∙ other-key (c ∷ (cs ++ name)) rest (all_of-append no_equals (c ∷ cs) name h named) longer,
    Quiet-own cs rest (ground arith),
  )
    where
      longer : (c ∷ (cs ++ name)) ≢ name
      longer e = omega (arith, ap length e, length-append cs name)

  -- Nor is it met in a text that ends with another key.
  pub Quiet-other :
      (s tail : Text)
      → all_of no_equals s ≡ true
      → name ≢ []
      → last_of 0 s ≢ last_of 0 name
      → Quiet token p (s ++ (61 ∷ [])) tail
  Quiet-other [] tail h some_byte differ = (other-key [] tail refl (λ e. some_byte (sym e)), tt)
  Quiet-other (c ∷ []) tail h some_byte differ = (
    other-key (c ∷ []) tail h (λ e. differ (ap (last_of 0) e)),
    (other-key [] tail refl (λ e. some_byte (sym e)), tt),
  )
  Quiet-other (c ∷ d ∷ ds) tail h some_byte differ = (
    ap (λ t. group_here token p (c ∷ d ∷ t)) (append_assoc ds (61 ∷ []) tail)
        ∙ other-key (c ∷ d ∷ ds) tail h (λ e. differ (ap (last_of 0) e)),
    Quiet-other (d ∷ ds) tail (ground arith) some_byte differ,
  )

  pub Quiet-append :
      (a b tail : Text)
      → Quiet token p a (b ++ tail)
      → Quiet token p b tail
      → Quiet token p (a ++ b) tail
  Quiet-append [] b tail q r = r
  Quiet-append (c ∷ cs) b tail (none_here, q) r = (
    ap (λ t. group_here token p (c ∷ t)) (append_assoc cs b tail) ∙ none_here,
    Quiet-append cs b tail q r,
  )

contains-here : (s token : Text) → starts_with token s ≡ true → contains s token ≡ true
unfolding contains
contains-here [] token h = h
contains-here (c ∷ cs) token h = ground (arith, h)

is_some : Option Text → Bool
is_some none = false
is_some (some rest) = true

pub contains-append : (a token b : Text) → contains (a ++ (token ++ b)) token ≡ true
unfolding contains
contains-append [] token b =
    contains-here (token ++ b) token
      (ap (λ o. elim o [ none ↦ false | some rest ↦ true ]) (strip-append token b))
contains-append (c ∷ cs) token b = ground (arith, contains-append cs token b)
