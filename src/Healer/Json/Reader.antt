-- ===== src/Healer/Json/Reader.antt =====
-- A reader of JSON strings that knows nothing of the writer, and what it reads of an escaped text.
use mathlib.Core.List.{append_assoc}
use job_queue_event_processi.Prelude.{
  ℕ, ltb, ◌≡◌, ◌∙◌, inl, inr, refl, ap, ◌==◌, ==_iff, Bool, true, false, ◌||◌, ◌&&◌, Bool-cases,
  if◌then◌else◌, Option, none, some, [], ◌∷◌, ◌++◌, arith, leb,
}
use job_queue_event_processi.Healer.Text.{Text}
use job_queue_event_processi.Healer.Text.Search.{all_of}
use job_queue_event_processi.Healer.Json.{escaped, escape_json}

-- The byte that a backslash and a letter stand for; `\u` is not among them.
abbrev unescape : ℕ → Option ℕ
unescape c =
    if c == 34
    then some 34
    else if c == 92
    then some 92
    else if c == b'/'
    then some b'/'
    else if c == b'b'
    then some 8
    else if c == b'f'
    then some 12
    else if c == b'n'
    then some 10
    else if c == b'r'
    then some 13
    else if c == b't'
    then some 9
    else none

abbrev keep : Option ℕ → Option (Text × Text) → Option (Text × Text)
keep (some c) (some (value, rest)) = some (c ∷ value, rest)
keep (some c) none = none
keep none more = none

-- A JSON string, behind its opening quote: a byte below 32 must not stand in it.
unfoldable pub read_string : (behind_backslash : Bool) → Text → Option (Text × Text)
read_string b [] = none
read_string true (c ∷ cs) = keep (unescape c) (read_string false cs)
read_string false (c ∷ cs) =
    let more = read_string false cs in
    let after_backslash = read_string true cs in
    if c == 34
    then some ([], cs)
    else if c == 92
    then after_backslash
    else if ltb c 32
    then none
    else keep (some c) more

-- The bytes that a document may hold and be read.
abbrev pub readable : ℕ → Bool
readable c = leb 32 c || c == 10 || c == 13 || c == 9

read-byte :
    (c : ℕ) (cs : Text)
    → (c == 34) ≡ false
    → (c == 92) ≡ false
    → read_string false (c ∷ cs) ≡ (if leb 32 c then keep (some c) (read_string false cs) else none)
unfolding read_string
read-byte c cs h k = elim (Bool-cases (leb 32 c)) [
  | inl printed ↦
      let no_control : ltb c 32 ≡ false = ground arith in
      rw (read_string, h, k, no_control, printed) refl
  | inr control ↦
      let below : ltb c 32 ≡ true = ground arith in rw (read_string, h, k, below, control) refl
]

unmoved :
    {A : Type 0} (x y : A) (b : Bool)
    → (if b then x else y) ≡ (if b || false || false || false then x else y)
unmoved x y true = refl
unmoved x y false = refl

-- What is read of a byte's printed form.
abbrev Reads : ℕ → Text → Text → Type 0
Reads c e cs =
    read_string false (e ++ cs)
    ≡ (if readable c then keep (some c) (read_string false cs) else none)

escaped-Reads : (c : ℕ) (cs : Text) → Reads c (escaped c) cs
unfolding read_string
escaped-Reads c cs = elim (Bool-cases (c == 92)) [
  | inl same ↦ rw ((==_iff c 92).0 same) refl
  | inr no_backslash ↦ elim (Bool-cases (c == 34)) [
    | inl same ↦ rw ((==_iff c 34).0 same) refl
    | inr no_quote ↦ elim (Bool-cases (c == 10)) [
      | inl same ↦ rw ((==_iff c 10).0 same) refl
      | inr no_line ↦ elim (Bool-cases (c == 13)) [
        | inl same ↦ rw ((==_iff c 13).0 same) refl
        | inr no_return ↦ elim (Bool-cases (c == 9)) [
          | inl same ↦ rw ((==_iff c 9).0 same) refl
          | inr no_tab ↦ plain no_backslash no_quote no_line no_return no_tab
        ]
      ]
    ]
  ]
]
  where
    plain :
        (c == 92) ≡ false
        → (c == 34) ≡ false
        → (c == 10) ≡ false
        → (c == 13) ≡ false
        → (c == 9) ≡ false
        → Reads c (escaped c) cs
    plain no_backslash no_quote no_line no_return no_tab =
        rw (no_backslash, no_quote, no_line, no_return, no_tab)
          (read-byte c cs no_quote no_backslash
            ∙ unmoved (keep (some c) (read_string false cs)) none (leb 32 c))

keep-if :
    (c : ℕ) (s rest : Text) (b d : Bool)
    → (if b then keep (some c) (if d then some (s, rest) else none) else none)
      ≡ (if b && d then some (c ∷ s, rest) else none)
keep-if c s rest true true = refl
keep-if c s rest true false = refl
keep-if c s rest false d = refl

-- Behind an opening quote, a reader of JSON strings reads an escaped text and its closing quote, in
-- front of anything, back as the text, exactly if every byte of the text is a tab, a line end or at
-- least 32; it rejects any other.
pub read_string-escape_json :
    (s rest : Text)
    → read_string false (escape_json s ++ (34 ∷ rest))
      ≡ (if all_of readable s then some (s, rest) else none)
unfolding read_string escape_json
read_string-escape_json [] rest = refl
read_string-escape_json (c ∷ cs) rest =
    ap (read_string false) (append_assoc (escaped c) (escape_json cs) (34 ∷ rest))
    ∙ escaped-Reads c (escape_json cs ++ (34 ∷ rest))
    ∙ ap (λ o. if readable c then keep (some c) o else none) (read_string-escape_json cs rest)
    ∙ keep-if c cs rest (readable c) (all_of readable cs)
