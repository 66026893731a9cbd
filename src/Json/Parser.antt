-- ===== src/Json/Parser.antt =====
-- src/json.cpp: the recursive descent over values, arrays and objects.
use adi.Base.{
  ℕ, zero, suc, ◌+◌, Bool, true, false, not, ◌||◌, List, [], ◌∷◌, ◌==◌, if◌then◌else◌, length,
  list_eq,
}
use adi.Base.Result.{Result, ok, err, ◌>>=◌, ◌>>◌, guard}
use adi.Base.Text.{codes}
use adi.Utf8.{Bytes}
use adi.Json.Value.{
  Json, Items, Fields, null, boolean, number, string, array, object, no_items, item, no_fields,
  field, Charconv,
}
use adi.Json.Lexer.{
  JsonError, trailing_data, expected_value, nesting_exceeds_limit, expected_bracket, expected_key,
  expected_colon, duplicate_key, expected_brace, out_of_fuel, whitespace, next_is, take_byte,
  literal, parse_string, parse_number,
}

abbrev pub maximum_depth : ℕ
maximum_depth = 128

unfoldable pub contains : List Bytes → Bytes → Bool
contains [] key = false
contains (k ∷ keys) key = list_eq k key || contains keys key

-- The elements of an array behind its opening bracket: `element` parses one. Each round takes a byte
-- at least.
unfoldable pub parse_items :
    (Bytes → Result JsonError (Json × Bytes)) → ℕ → Bytes → Result JsonError (Items × Bytes)
parse_items element zero rest = err out_of_fuel
parse_items element (suc fuel) rest = do
  (value, after) ← element rest
  let comma = take_byte b',' after
  if comma.0
      then (parse_items element fuel comma.1 >>= λ (values, last). ok (item value values, last))
      else (let close = take_byte b']' comma.1 in
          if close.0 then ok (item value no_items, close.1) else err expected_bracket)

unfoldable pub parse_array :
    (Bytes → Result JsonError (Json × Bytes)) → Bytes → Result JsonError (Json × Bytes)
parse_array element rest =
    let close = take_byte b']' (take_byte b'[' rest).1 in
    if close.0
    then ok (array no_items, close.1)
    else (parse_items element (suc (length close.1)) close.1 >>= λ (values, last).
        ok (array values, last))

-- The members of an object behind its opening brace; `keys` are those seen.
unfoldable pub parse_fields :
    (Bytes → Result JsonError (Json × Bytes))
    → ℕ
    → List Bytes
    → Bytes
    → Result JsonError (Fields × Bytes)
parse_fields element zero keys rest = err out_of_fuel
parse_fields element (suc fuel) keys rest = do
  guard (next_is 0x22 (whitespace rest)) expected_key
  (key, after_key) ← parse_string (whitespace rest)
  let colon = take_byte b':' after_key
  guard colon.0 expected_colon
  guard (not (contains keys key)) duplicate_key
  (value, after) ← element colon.1
  let comma = take_byte b',' after
  if comma.0
      then (parse_fields element fuel (key ∷ keys) comma.1 >>= λ (members, last).
          ok (field key value members, last))
      else (let close = take_byte b'}' comma.1 in
          if close.0 then ok (field key value no_fields, close.1) else err expected_brace)

unfoldable pub parse_object :
    (Bytes → Result JsonError (Json × Bytes)) → Bytes → Result JsonError (Json × Bytes)
parse_object element rest =
    let close = take_byte b'}' (take_byte b'{' rest).1 in
    if close.0
    then ok (object no_fields, close.1)
    else (parse_fields element (suc (length close.1)) [] close.1 >>= λ (members, last).
        ok (object members, last))

-- The value that begins with the byte `c`, at `rest`.
unfoldable pub dispatch :
    Charconv
    → (Bytes → Result JsonError (Json × Bytes))
    → ℕ
    → Bytes
    → Result JsonError (Json × Bytes)
dispatch lib element c rest =
    if c == b'n'
    then (literal (codes "null") rest >>= λ after. ok (null, after))
    else if c == b't'
    then (literal (codes "true") rest >>= λ after. ok (boolean true, after))
    else if c == b'f'
    then (literal (codes "false") rest >>= λ after. ok (boolean false, after))
    else if c == 0x22
    then (parse_string rest >>= λ (text, after). ok (string text, after))
    else if c == b'['
    then parse_array element rest
    else if c == b'{'
    then parse_object element rest
    else (parse_number lib rest >>= λ (value, after). ok (number value, after))

-- `levels` counts down from 129 where the code's depth counts up from 0.
unfoldable pub parse_value : Charconv → ℕ → Bytes → Result JsonError (Json × Bytes)
parse_value lib zero rest = elim (whitespace rest) [
  | [] ↦ err expected_value
  | c ∷ after ↦ err nesting_exceeds_limit
]
parse_value lib (suc levels) rest = elim (whitespace rest) [
  | [] ↦ err expected_value
  | c ∷ after ↦ dispatch lib (parse_value lib levels) c (c ∷ after)
]

unfoldable pub parse_json : Charconv → Bytes → Result JsonError Json
parse_json lib input = do
  (value, rest) ← parse_value lib (maximum_depth + 1) input
  elim (whitespace rest) [ [] ↦ ok value | c ∷ after ↦ err trailing_data ]
