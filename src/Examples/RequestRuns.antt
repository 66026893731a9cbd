-- ===== src/Examples/RequestRuns.antt =====
-- src/json.cpp, src/tool_call.cpp, src/parallel.cpp, src/generation.cpp at concrete requests.
use adi.Utf8.{sanitize_utf8}
use adi.Json.Printer.{json_string}
use adi.Json.Escapes.{parse_string-json_string}
use adi.Base.{
  ◌++◌, range, ◌*◌, ◌^◌, ◌≤◌, ◌<◌, ◌≡◌, ◌≢◌, refl, ◌↔◌, true, false, [], ◌∷◌, none, some, ◌==◌,
  if◌then◌else◌, length, list_eq, arith,
}
use adi.Base.Result.{ok}
use adi.Base.Text.{codes}
use adi.Base.Outcome.{Outcome}
use adi.Utf8.{Bytes, scan_utf8, scan_from, scan_round, scan_sequence, lead_of, valid_utf8}
use adi.Json.Value.{
  Json, Items, Charconv, null, number, string, array, object, no_items, item, no_fields, field,
  find, find_field, string_of, object_of, boolean_of, array_of, is_finite,
}
use adi.Json.Lexer.{
  out_of_fuel, whitespace, next_is, take_byte, literal, string_round, string_loop, parse_string,
  head_is_digit, digits, skip_integer, skip_fraction, skip_exponent, parse_number,
}
use adi.Json.Parser.{
  maximum_depth, contains, parse_items, parse_array, parse_fields, parse_object, dispatch,
  parse_value, parse_json,
}
use adi.Json.Reads.Values.{WellFormed}
use adi.Json.Reads.Values.Objects.{parse_json-WellFormed}
use adi.ToolCall.Tools.{
  FunctionTool, valid_character, valid_name, required_names, check_required, validate_parameters,
  tool_name, tool_description, tool_strict, tool_parameters, make_tool, parse_function_tool,
  count_items, has_name, parse_tools_from, parse_function_tools,
}
use adi.ToolCall.Tools.Valid.{IsValidTool, AreValid, parse_function_tools-AreValid}
use adi.ToolCall.Calls.{Doubles, parse_tool_calls}
use adi.ToolCall.Calls.Valid.{Genuine}
use adi.ToolCall.Calls.Valid.Total.{IsOutput, parse_tool_calls-IsOutput}
use adi.Parallel.{task_count_of, run, indices, task_bound}
use adi.Parallel.Cover.{run-indices}
use adi.Generation.{resolved_output_limit}
use adi.Generation.Limit.{IsLimit, resolved_output_limit_iff}

-- Conversions that know the number 1 only.
abbrev ones : Charconv
ones = record {
  from_chars = λ text. if list_eq text (codes "1") then some 0x3FF0000000000000 else none;
  to_chars = λ bits. if bits == 0x3FF0000000000000 then some (codes "1") else none;
}

abbrev one_and_object : Bytes
one_and_object = codes "[1, {\"a\": null}]"

parse_object_text :
    parse_json ones one_and_object
    ≡ ok (
        array (
          item
            (number 0x3FF0000000000000)
            (item (object (field (codes "a") null no_fields)) no_items)))
unfolding parse_json parse_value dispatch parse_array parse_items parse_object parse_fields contains
    take_byte whitespace next_is literal parse_string string_loop string_round parse_number
    skip_integer skip_fraction skip_exponent digits head_is_digit is_finite valid_utf8 scan_utf8
    scan_from scan_round scan_sequence lead_of
parse_object_text = refl

parse_json-WellFormed_example :
    Outcome (WellFormed maximum_depth) (λ e. e ≢ out_of_fuel) (parse_json ones one_and_object)
parse_json-WellFormed_example = parse_json-WellFormed ones one_and_object

-- A tool that needs one parameter.
abbrev parameters : Json
parameters = object (
    field (codes "type") (string (codes "object"))
      (field (codes "required") (array (item (string (codes "city")) no_items)) no_fields))

abbrev request : Json
request = array (
    item
      (object (
        field (codes "type") (string (codes "function")) (
          field (codes "name") (string (codes "get_weather"))
            (field (codes "parameters") parameters no_fields))))
      no_items)

abbrev weather : FunctionTool
weather = make_tool (codes "get_weather") [] parameters

weather-parses : parse_function_tools request ≡ ok (weather ∷ [])
unfolding parse_function_tools parse_tools_from parse_function_tool count_items has_name tool_name
    tool_description tool_strict tool_parameters validate_parameters check_required required_names
    valid_name valid_character find find_field string_of object_of boolean_of array_of
weather-parses = refl

parse_function_tools-AreValid_example :
    (items : Items) × (array_of request ≡ some items)
    × (length (weather ∷ []) ≡ count_items items)
    × (length (weather ∷ []) ≤ 128)
    × AreValid (weather ∷ [])
parse_function_tools-AreValid_example =
    parse_function_tools-AreValid request (weather ∷ []) weather-parses

abbrev doubles : Doubles
doubles = record { charconv = ones; is_integral = λ bits. true }

weather-IsValidTool : IsValidTool weather
unfolding make_tool validate_parameters check_required required_names valid_name valid_character
    find find_field string_of object_of array_of
weather-IsValidTool = (refl, refl)

abbrev call_text : Bytes
call_text =
    codes "<tool_call><function=get_weather><parameter=city>Rome</parameter></function></tool_call>"

parse_tool_calls-IsOutput_example :
    Outcome
      (IsOutput doubles (weather ∷ []) false call_text)
      Genuine
      (parse_tool_calls doubles (weather ∷ []) false call_text)
parse_tool_calls-IsOutput_example =
    parse_tool_calls-IsOutput doubles (weather ∷ []) false call_text (weather-IsValidTool, tt)

four_tasks : 10 * task_count_of 4 10 2 < 2 ^ 32
unfolding task_count_of
four_tasks = omega arith

-- The second task of five begins where the product has wrapped around.
wrapped_bound : task_bound 0x40000000 5 4 ≡ 0
unfolding task_bound
wrapped_bound = refl

run-indices_example : indices (run 4 false 10 2) ≡ range 0 10
run-indices_example = run-indices 4 false 10 2 (omega arith) four_tasks

resolved_output_limit_iff_example :
    (resolved_output_limit 8 5 (some 3) ≡ ok 3) ↔ IsLimit 8 5 (some 3) 3
resolved_output_limit_iff_example = resolved_output_limit_iff 8 5 (some 3) 3 (omega arith)

-- a quotation mark, a control character and a stray continuation byte
parse_string-json_string_example :
    parse_string (json_string (0x22 ∷ 0x01 ∷ 0x80 ∷ []) ++ 0x5D ∷ [])
    ≡ ok (sanitize_utf8 (0x22 ∷ 0x01 ∷ 0x80 ∷ []), 0x5D ∷ [])
parse_string-json_string_example =
    parse_string-json_string (0x22 ∷ 0x01 ∷ 0x80 ∷ []) (0x5D ∷ [])
      (omega arith, (omega arith, (omega arith, tt)))
