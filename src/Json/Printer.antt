-- ===== src/Json/Printer.antt =====
-- src/json.cpp: the printer.
use adi.Base.{
  ℕ, Bool, true, false, [], ◌∷◌, ◌++◌, none, some, ltb, ◌==◌, if◌then◌else◌, bit_and, get_or,
}
use adi.Base.Result.{Result, ok, err, ◌>>=◌, ◌>>◌, guard}
use adi.Base.Bits.{shr}
use adi.Base.Text.{codes}
use adi.Utf8.{Bytes, sanitize_utf8}
use adi.Json.Value.{
  Json, Items, Fields, null, boolean, number, string, array, object, no_items, item, no_fields,
  field, Charconv, is_finite,
}

-- `hex[value]`
unfoldable pub hex_char : ℕ → ℕ
hex_char value = get_or (codes "0123456789abcdef") value 0

unfoldable pub escape_byte : ℕ → Bytes
escape_byte value =
    if value == 0x22
    then 0x5C ∷ 0x22 ∷ []
    else if value == 0x5C
    then 0x5C ∷ 0x5C ∷ []
    else if value == 0x08
    then 0x5C ∷ b'b' ∷ []
    else if value == 0x0C
    then 0x5C ∷ b'f' ∷ []
    else if value == 0x0A
    then 0x5C ∷ b'n' ∷ []
    else if value == 0x0D
    then 0x5C ∷ b'r' ∷ []
    else if value == 0x09
    then 0x5C ∷ b't' ∷ []
    else if ltb value 0x20
    then 0x5C ∷ b'u' ∷ b'0' ∷ b'0' ∷ hex_char (shr value 4) ∷ hex_char (bit_and value 0x0F) ∷ []
    else value ∷ []

unfoldable pub escape_all : Bytes → Bytes
escape_all [] = []
escape_all (value ∷ rest) = escape_byte value ++ escape_all rest

unfoldable pub json_string : Bytes → Bytes
json_string input = 0x22 ∷ escape_all (sanitize_utf8 input) ++ 0x22 ∷ []

pub data DumpError : Type 0 where
  not_finite : DumpError
  not_printable : DumpError

pub dump_number : Charconv → ℕ → Result DumpError Bytes
dump_number lib value = do
  guard (is_finite value) not_finite
  elim (lib.to_chars value) [ none ↦ err not_printable | some text ↦ ok text ]

-- The comma before every element but the first.
abbrev pub separator : Bool → Bytes
separator true = []
separator false = b',' ∷ []

unfoldable mutual
  pub dump_value : Charconv → Json → Result DumpError Bytes
  dump_value lib null = ok (codes "null")
  dump_value lib (boolean b) = ok (if b then codes "true" else codes "false")
  dump_value lib (number x) = dump_number lib x
  dump_value lib (string s) = ok (json_string s)
  dump_value lib (array xs) = dump_items lib true xs >>= λ inner. ok (b'[' ∷ inner ++ b']' ∷ [])
  dump_value lib (object fs) = dump_fields lib true fs >>= λ inner. ok (b'{' ∷ inner ++ b'}' ∷ [])

  pub dump_items : Charconv → Bool → Items → Result DumpError Bytes
  dump_items lib first no_items = ok []
  dump_items lib first (item x xs) = dump_value lib x >>= λ value.
      dump_items lib false xs >>= λ rest. ok (separator first ++ (value ++ rest))

  pub dump_fields : Charconv → Bool → Fields → Result DumpError Bytes
  dump_fields lib first no_fields = ok []
  dump_fields lib first (field key x fs) = dump_value lib x >>= λ value.
      dump_fields lib false fs >>= λ rest.
      ok (separator first ++ (json_string key ++ (b':' ∷ value ++ rest)))

pub json_dump : Charconv → Json → Result DumpError Bytes
json_dump lib value = dump_value lib value
