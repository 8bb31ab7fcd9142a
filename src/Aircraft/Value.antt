-- ===== src/Aircraft/Value.antt =====
-- The values that normalized telemetry holds, with Python's equality on them.
-- A float is an integer number of thousandths; a member of a `StrEnum` compares by its text.
use dcs_copilot.Prelude.{
  String, Bool, true, false, ◌&&◌, ◌||◌, Option, none, some, str_eq, if◌then◌else◌,
}
use dcs_copilot.Prelude.Int.{ℤ, pos, eqb_ℤ}

pub data Value : Type 0 where
  nothing : Value
  flag : Bool → Value
  number : ℤ → Value
  text : String → Value
  member : String → Value

-- `isinstance(value, (int, float))`, which holds of a bool, and the number that it is.
unfoldable pub as_number : Value → Option ℤ
as_number (flag b) = some (pos (if b then 1000 else 0))
as_number (number z) = some z
as_number _ = none

unfoldable pub as_text : Value → Option String
as_text (text s) = some s
as_text (member s) = some s
as_text _ = none

abbrev pub is_nothing : Value → Bool
is_nothing nothing = true
is_nothing _ = false

unfoldable pub same_number : Option ℤ → Option ℤ → Bool
same_number (some a) (some b) = eqb_ℤ a b
same_number _ _ = false

unfoldable pub same_text : Option String → Option String → Bool
same_text (some a) (some b) = str_eq a b
same_text _ _ = false

-- a == b
unfoldable pub py_eq : Value → Value → Bool
unfolding as_number as_text same_number same_text
py_eq a b =
    (is_nothing a && is_nothing b)
    || same_number (as_number a) (as_number b)
    || same_text (as_text a) (as_text b)
