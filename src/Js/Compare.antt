-- ===== src/Js/Compare.antt =====
-- The comparisons of values that the end-to-end suites make.
use Prim.Native.String.{compare}
use text.Mathlib.Text.{is_lt, find?}
use job_queue_event_processi.Prelude.{
  ℕ, ◌==◌, ltb, leb, str_eq, String, Bool, true, false, not, if◌then◌else◌, Option, none, some,
}
use job_queue_event_processi.Js.Value.{
  Value, undefined, null, bool, num, str, obj, Fields, end, field,
}
use job_queue_event_processi.Js.Outcome.{Outcome, done, thrown}

-- `a === b`. Two objects that are parsed apart are never the same.
abbrev pub same_value : Value → Value → Bool
same_value undefined undefined = true
same_value null null = true
same_value (bool a) (bool b) = if a then b else not b
same_value (num a) (num b) = a == b
same_value (str a) (str b) = str_eq a b
same_value _ _ = false

abbrev pub is_null : Value → Bool
is_null null = true
is_null _ = false

-- `typeof v === 'object'`, which also holds of `null`.
abbrev pub is_object : Value → Bool
is_object null = true
is_object (obj fs) = true
is_object _ = false

abbrev pub is_string : Value → Bool
is_string (str s) = true
is_string _ = false

abbrev pub is_number : Value → Bool
is_number (num n) = true
is_number _ = false

-- `v.includes(part)` of a text.
abbrev pub text_includes : Value → String → Bool
text_includes (str s) part = elim (find? s part) [ none ↦ false | some i ↦ true ]
text_includes _ part = false

pub has_field : Fields → String → Bool
has_field end k = false
has_field (field j v fs) k = if str_eq j k then true else has_field fs k

-- `k in v`, a TypeError where `v` is no object.
unfoldable pub in_object : String → Value → Outcome Bool
unfolding has_field
in_object k (obj fs) = done (has_field fs k)
in_object k undefined = thrown "Cannot use 'in' operator"
in_object k null = thrown "Cannot use 'in' operator"
in_object k (bool b) = thrown "Cannot use 'in' operator"
in_object k (num n) = thrown "Cannot use 'in' operator"
in_object k (str s) = thrown "Cannot use 'in' operator"

-- The number that a comparison makes of a value; `none` is `NaN`. `number` is `Number` of a text.
abbrev pub to_number : (number : String → Option ℕ) → Value → Option ℕ
to_number number (num n) = some n
to_number number undefined = none
to_number number null = some 0
to_number number (bool b) = some (if b then 1 else 0)
to_number number (str s) = if str_eq s "" then some 0 else number s
to_number number (obj fs) = none

abbrev pub exceeds : Option ℕ → Option ℕ → Bool
exceeds (some a) (some b) = ltb b a
exceeds none _ = false
exceeds _ none = false

abbrev pub reaches : Option ℕ → ℕ → Bool
reaches (some a) b = leb b a
reaches none b = false

-- `a > b`: of two texts the order is that of their characters, else that of the numbers.
abbrev pub greater : (number : String → Option ℕ) → Value → Value → Bool
greater number (str a) (str b) = is_lt (compare b a)
greater number a b = exceeds (to_number number a) (to_number number b)
