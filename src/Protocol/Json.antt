-- ===== src/Protocol/Json.antt =====
-- JSON documents, as Python's dictionaries, lists and scalars.
-- A float is a number of thousandths.
use dcs_copilot.Prelude.{
  ℕ, suc, String, Bool, true, ◌&&◌, Option, none, some, List, [], ◌∷◌, str_eq, ◌==◌, if◌then◌else◌,
  all_of, any_of,
}
use dcs_copilot.Prelude.Int.{ℤ, pos}

mutual
  pub data Json : Type 0 where
    null : Json
    boolean : Bool → Json
    integer : ℤ → Json
    decimal : ℤ → Json
    text : String → Json
    array : Items → Json
    object : Fields → Json

  pub data Items : Type 0 where
    nil : Items
    cons : Json → Items → Items

  pub data Fields : Type 0 where
    end : Fields
    field : String → Json → Fields → Fields

-- d.get(k)
unfoldable pub get : String → Fields → Option Json
get k end = none
get k (field j v rest) = if str_eq j k then some v else get k rest

unfoldable pub names : Fields → List String
names end = []
names (field j v rest) = j ∷ names rest

-- len(d)
unfoldable pub size : Fields → ℕ
size end = 0
size (field j v rest) = suc (size rest)

-- isinstance(v, str)
unfoldable pub as_text : Option Json → Option String
as_text (some (text s)) = some s
as_text v = none

-- isinstance(v, dict)
unfoldable pub as_object : Option Json → Option Fields
as_object (some (object d)) = some d
as_object v = none

-- isinstance(v, int) and not isinstance(v, bool)
unfoldable pub as_integer : Option Json → Option ℤ
as_integer (some (integer z)) = some z
as_integer v = none

-- isinstance(v, int) and v > 0: a bool is the integer that it is.
unfoldable pub as_positive : Option Json → Option ℕ
as_positive (some (integer (pos n))) = if n == 0 then none else some n
as_positive (some (boolean true)) = some 1
as_positive v = none

unfoldable pub member_of : List String → String → Bool
member_of xs x = any_of (λ y. str_eq y x) xs

-- set(d) == {…}
unfoldable pub has_exactly : List String → Fields → Bool
unfolding member_of names
has_exactly wanted d = all_of (member_of wanted) (names d) && all_of (member_of (names d)) wanted
