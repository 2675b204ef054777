-- ===== src/Healer/Text.antt =====
-- Texts that the program walks: lists of the codes of their bytes, with the searches of
-- `std::string::find` and `std::regex_search`.
pub mod Search
pub mod Keys
use Prim.Native.Char.{code}
use job_queue_event_processi.Prelude.{
  ℕ, leb, ◌==◌, Bool, true, false, ◌&&◌, ◌||◌, if◌then◌else◌, String, Option, none, some, List, [],
  ◌∷◌,
}

abbrev pub Text : Type 0
Text = List ℕ

-- The bytes of a literal.
abbrev pub codes : String → Text
codes String.[] = []
codes (String.◌∷◌ c s) = code c ∷ codes s

-- The classes `\d`, `[A-Z]`, `[^,]` and `\s`.
abbrev pub is_digit : ℕ → Bool
is_digit c = leb b'0' c && leb c b'9'

abbrev pub is_capital : ℕ → Bool
is_capital c = leb b'A' c && leb c b'Z'

abbrev pub no_comma : ℕ → Bool
no_comma c = if c == b',' then false else true

abbrev pub is_space : ℕ → Bool
is_space c = c == b' ' || leb 9 c && leb c 13

-- The rest of a text behind a token that it starts with.
unfoldable pub strip : (token line : Text) → Option Text
strip [] line = some line
strip (t ∷ ts) [] = none
strip (t ∷ ts) (c ∷ cs) = if t == c then strip ts cs else none

abbrev pub starts_with : (token line : Text) → Bool
starts_with token line = elim (strip token line) [ none ↦ false | some rest ↦ true ]

-- `line.find(token) != std::string::npos`.
unfoldable pub contains : (line token : Text) → Bool
contains [] token = starts_with token []
contains (c ∷ cs) token = starts_with token (c ∷ cs) || contains cs token

-- The longest start of a text whose bytes are all of a class.
unfoldable pub run_of : (ℕ → Bool) → Text → Text
run_of p [] = []
run_of p (c ∷ cs) = if p c then c ∷ run_of p cs else []

unfoldable pub past : (ℕ → Bool) → Text → Text
past p [] = []
past p (c ∷ cs) = if p c then past p cs else c ∷ cs

abbrev pub or_text : Text → Text → Text
or_text [] later = later
or_text (c ∷ cs) later = c ∷ cs

-- The group of `token(class+)` where it matches at the start of a line, or else the empty text.
unfoldable pub group_here : (token : Text) → (ℕ → Bool) → Text → Text
group_here token p line = elim (strip token line) [ none ↦ [] | some rest ↦ run_of p rest ]

-- `capture(line, token(class+), 1)`: the group of the leftmost match.
unfoldable pub capture : (token : Text) → (ℕ → Bool) → Text → Text
capture token p [] = []
capture token p (c ∷ cs) = or_text (group_here token p (c ∷ cs)) (capture token p cs)
