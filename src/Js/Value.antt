-- ===== src/Js/Value.antt =====
-- Values of the scripts, as `JSON.parse` makes them from a reply of the server. Numbers are the
-- natural ones, which is what the server sends (ids, counts, epoch milliseconds); arrays do not
-- occur in the replies that the scripts read.
use job_queue_event_processi.Prelude.{
  ℕ, ◌==◌, str_eq, String, Bool, true, false, not, if◌then◌else◌,
}

mutual
  pub data Value : Type 0 where
    undefined : Value
    null : Value
    bool : Bool → Value
    num : ℕ → Value
    str : String → Value
    obj : Fields → Value

  pub data Fields : Type 0 where
    end : Fields
    field : String → Value → Fields → Fields

pub open_field : String → Fields → Value
open_field k end = undefined
open_field k (field j v fs) = if str_eq j k then v else open_field k fs

-- `v?.k`: of a text, a number or a Boolean the scripts read no property that is there.
unfoldable pub opt_prop : Value → String → Value
unfolding open_field
opt_prop (obj fs) k = open_field k fs
opt_prop undefined k = undefined
opt_prop null k = undefined
opt_prop (bool b) k = undefined
opt_prop (num n) k = undefined
opt_prop (str s) k = undefined

abbrev pub truthy : Value → Bool
truthy undefined = false
truthy null = false
truthy (bool b) = b
truthy (num n) = not (n == 0)
truthy (str s) = not (str_eq s "")
truthy (obj fs) = true

-- `v === "s"`.
abbrev pub is_str : Value → String → Bool
is_str (str s) t = str_eq s t
is_str undefined t = false
is_str null t = false
is_str (bool b) t = false
is_str (num n) t = false
is_str (obj fs) t = false

-- `v === n`.
abbrev pub is_num : Value → ℕ → Bool
is_num (num m) n = m == n
is_num undefined n = false
is_num null n = false
is_num (bool b) n = false
is_num (str s) n = false
is_num (obj fs) n = false
