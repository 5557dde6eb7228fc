-- ===== src/Usage/Payload.antt =====
-- core/llm/usage.py, `_integer` and `_nested_integer`: counts out of a provider's JSON.
use claudecode_lite_main.Prelude.{ℕ, String, Option, none, some, Bool, str_eq, ◌==◌, if◌then◌else◌}
use claudecode_lite_main.Prelude.Int.{ℤ, to_nat}

-- A JSON value; `other` is a list. A float is finite here, and stands as the integer that `int` makes of it.
mutual
  pub data Value : Type 0 where
    boolean : Bool → Value
    integer : ℤ → Value
    float : ℤ → Value
    object : Payload → Value
    text : String → Value
    null : Value
    other : Value

  pub data Payload : Type 0 where
    empty : Payload
    entry : String → Value → Payload → Payload

unfoldable pub get : String → Payload → Option Value
get key empty = none
get key (entry k v rest) = if str_eq k key then some v else get key rest

-- `_integer`, with a default that is no less than 0.
abbrev pub count_of : Option Value → ℕ → ℕ
count_of none default = default
count_of (some (boolean b)) default = default
count_of (some (integer n)) default = to_nat n
count_of (some (float n)) default = to_nat n
count_of (some (object p)) default = default
count_of (some (text s)) default = default
count_of (some null) default = default
count_of (some other) default = default

abbrev pub integer_or : Payload → String → ℕ → ℕ
integer_or payload key default = count_of (get key payload) default

abbrev pub integer_of : Payload → String → ℕ
integer_of payload key = integer_or payload key 0

-- A value that is a `dict`.
abbrev pub as_object : Option Value → Option Payload
as_object (some (object p)) = some p
as_object _ = none

abbrev pub nested_integer : Payload → String → String → ℕ
nested_integer payload parent key = elim (as_object (get parent payload)) [
  | none ↦ 0
  | some p ↦ integer_of p key
]

-- `a or b`.
abbrev pub or_else : ℕ → ℕ → ℕ
or_else a b = if a == 0 then b else a
