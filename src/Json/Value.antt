-- ===== src/Json/Value.antt =====
-- src/json.cpp, include/adi/json.hpp: the values and their queries. A double is the number of its
-- 64 IEEE-754 bits; converting it from and to text is the work of the C++ library.
use adi.Base.{
  ℕ, ◌/◌, ◌%◌, ◌^◌, Bool, true, false, not, Option, none, some, ◌==◌, if◌then◌else◌, list_eq,
}
use adi.Utf8.{Bytes}

-- The lists inside an array and an object are types of their own.
mutual
  pub data Json : Type 0 where
    null : Json
    boolean : Bool → Json
    number : ℕ → Json
    string : Bytes → Json
    array : Items → Json
    object : Fields → Json

  pub data Items : Type 0 where
    no_items : Items
    item : Json → Items → Items

  pub data Fields : Type 0 where
    no_fields : Fields
    field : Bytes → Json → Fields → Fields

-- `std::from_chars` on a whole text (no value on an error or where some text is left over), and
-- `std::to_chars`.
pub record Charconv : Type 0 where
  pub from_chars : Bytes → Option ℕ
  pub to_chars : ℕ → Option Bytes

-- `std::isfinite`: the exponent bits are not all ones.
unfoldable pub is_finite : ℕ → Bool
is_finite bits = not (bits / 2 ^ 52 % 2 ^ 11 == 2047)

unfoldable pub is_null : Json → Bool
is_null null = true
is_null _ = false

unfoldable pub boolean_of : Json → Option Bool
boolean_of (boolean b) = some b
boolean_of _ = none

pub number_of : Json → Option ℕ
number_of (number x) = some x
number_of _ = none

unfoldable pub string_of : Json → Option Bytes
string_of (string s) = some s
string_of _ = none

unfoldable pub array_of : Json → Option Items
array_of (array xs) = some xs
array_of _ = none

unfoldable pub object_of : Json → Option Fields
object_of (object fs) = some fs
object_of _ = none

unfoldable pub find_field : Bytes → Fields → Option Json
find_field key no_fields = none
find_field key (field candidate value fs) =
    if list_eq candidate key then some value else find_field key fs

unfoldable pub find : Bytes → Json → Option Json
find key (object fs) = find_field key fs
find key _ = none
