-- ===== src/ToolCall/Calls/Valid/Total.antt =====
-- src/tool_call.cpp: the calls are read to their end, and each one is checked.
use adi.Base.{
  ℕ, zero, suc, ◌≤◌, ◌<◌, ◌≡◌, refl, subst, ◌⊎◌, Bool, true, not, ◌&&◌, List, [], ◌∷◌, ltb, ◌==◌,
  length, list_eq, drop, arith, Bool-cases, Option-cases, inl, inr, All, length-drop,
}
use adi.Base.Result.{
  ok, guard, Ensures, Ensures-ok, Ensures-of, Ensures-guard, Ensures-after, Result-cases,
}
use adi.Base.Text.{codes}
use adi.Base.Outcome.{
  Outcome, returns, throws, Outcome-bind, Outcome-guard, Outcome-map, Outcome-with,
}
use adi.Utf8.{Bytes}
use adi.Json.Value.{
  Json, Items, Fields, object, no_items, item, no_fields, find, string_of, array_of,
}
use adi.Json.Lexer.{whitespace}
use adi.Json.Printer.{json_dump}
use adi.Json.Reads.{whitespace-length}
use adi.ToolCall.Tools.{
  FunctionTool, validate_parameters, check_required, required_names, if_present, is_object, is_text,
  parameters_not_an_object, parameters_type, properties_not_an_object,
}
use adi.ToolCall.Tools.Valid.{IsValidTool}
use package.adi.ToolCall.Calls.{
  Doubles, ParsedModelOutput, tool_open, tool_close, function_open, function_close, starts_with,
  find_text, find_tool, has_key, check_present, validate_required, dump_arguments, parse_call,
  parse_calls, parse_tool_calls, missing_parameter, malformed_function, malformed_wrapper,
  content_after_call,
}
use adi.ToolCall.Calls.Valid.{is_model_error, Genuine, item_names, required_of, IsCall, all_conform}
use adi.ToolCall.Calls.Valid.Parameters.{
  find_text-found, parse_tag_name-reads, parse_parameters-reads,
}

check_present-requires :
    (names : Items) (arguments : Fields)
    → required_names names ≡ true
    → Outcome
        (λ u. All (λ name. has_key arguments name ≡ true) (item_names names))
        Genuine
        (check_present names arguments)
unfolding check_present item_names is_model_error required_names
check_present-requires no_items arguments h = returns tt
check_present-requires (item name names) arguments h = elim (Option-cases (string_of name)) [
  | inl e ↦ absurd (ground arith)
  | inr (key, e) ↦
      let more : required_names names ≡ true = ground arith in
      rw (e, check_present)
        (Outcome-guard (has_key arguments key) missing_parameter refl (λ p.
          Outcome-map (check_present-requires names arguments more)
            (λ u all. rw (e, item_names) (p, all))))
]

validate_parameters-required :
    (parameters : Json)
    → Ensures
        (λ u. if_present (find (codes "required") parameters) check_required ≡ ok u)
        (validate_parameters parameters)
unfolding validate_parameters
validate_parameters-required parameters =
    Ensures-guard (is_object parameters) parameters_not_an_object (λ _.
      Ensures-after
        (if_present (find (codes "type") parameters)
          (λ type. guard (is_text (codes "object") type) parameters_type))
        (λ _.
          Ensures-after
            (if_present (find (codes "properties") parameters)
              (λ properties. guard (is_object properties) properties_not_an_object))
            (λ _.
              Ensures-of (if_present (find (codes "required") parameters) check_required)
                (λ u e. e))))

-- A tool with valid parameters lists the names it requires as an array of texts.
validate_required-requires :
    (tool : FunctionTool) (arguments : Fields)
    → IsValidTool tool
    → Outcome
        (λ u. All (λ name. has_key arguments name ≡ true) (required_of tool))
        Genuine
        (validate_required tool arguments)
unfolding validate_required is_model_error required_of
validate_required-requires tool arguments (_, valid) =
    elim (Option-cases (find (codes "required") (tool.parameters))) [
      | inl e ↦ rw (e, validate_required) (returns (rw (e, required_of) tt))
      | inr (required, e) ↦
          let present : if_present (find (codes "required") (tool.parameters)) check_required
              ≡ ok tt =
            Ensures-ok (validate_parameters-required (tool.parameters)) valid in
          let checked : check_required required ≡ ok tt =
            subst (λ o. if_present o check_required ≡ ok tt) e present in
          elim (Option-cases (array_of required)) [
            | inl f ↦ absurd (unfold check_required in ground arith)
            | inr (names, f) ↦
                let listed : required_names names ≡ true = unfold check_required in ground arith in
                rw (e, validate_required)
                  (rw f (
                    Outcome-map (check_present-requires names arguments listed)
                      (λ u all. rw (e, required_of) (rw f all))))
          ]
    ]

find_tool-valid :
    (tools : List FunctionTool) (name : Bytes)
    → All IsValidTool tools
    → Outcome IsValidTool Genuine (find_tool tools name)
unfolding find_tool is_model_error
find_tool-valid [] name h = throws refl
find_tool-valid (tool ∷ tools) name (valid, h) = elim (Bool-cases (list_eq (tool.name) name)) [
  | inl e ↦ rw e (returns valid)
  | inr e ↦ rw e (find_tool-valid tools name h)
]

dump_arguments-throws :
    (lib : Doubles) (arguments : Fields)
    → Outcome (λ json. Unit {0}) Genuine (dump_arguments lib arguments)
unfolding dump_arguments is_model_error
dump_arguments-throws lib arguments =
    elim (Result-cases (json_dump (lib.charconv) (object arguments))) [
      | inl (text, e) ↦ rw (e, dump_arguments) (returns tt)
      | inr (x, e) ↦ rw (e, dump_arguments) (throws refl)
    ]

dump_arguments-Genuine :
    (lib : Doubles) (arguments : Fields)
    → Outcome
        (λ json. dump_arguments lib arguments ≡ ok json)
        Genuine
        (dump_arguments lib arguments)
dump_arguments-Genuine lib arguments =
    Outcome-map (Outcome-with (dump_arguments-throws lib arguments)) (λ json (_, e). e)

-- A call is read from an opening tag.
parse_call-IsCall :
    (lib : Doubles) (tools : List FunctionTool) (text : Bytes)
    → All IsValidTool tools
    → starts_with tool_open text ≡ true
    → Outcome
        (λ r. IsCall lib tools r.0 × (length r.1 < length text))
        Genuine
        (parse_call lib tools text)
unfolding parse_call is_model_error
parse_call-IsCall lib tools text h s =
    Outcome-bind
      (parse_tag_name-reads function_open (whitespace (drop (length tool_open) text)) (omega arith))
      (λ (name, after_name) shorter.
        Outcome-bind (Outcome-with (find_tool-valid tools name h)) (λ tool (valid, found).
          let blanks : length (whitespace after_name) ≤ length after_name =
            whitespace-length after_name in
          Outcome-bind
            (parse_parameters-reads lib tool (suc (length after_name)) no_fields
              (whitespace after_name) (tt, unfold all_conform in refl) (omega arith))
            (λ (arguments, after) (are_arguments, left).
              Outcome-guard (starts_with function_close after) malformed_function refl (λ _.
                Outcome-guard
                  (starts_with tool_close (whitespace (drop (length function_close) after)))
                  malformed_wrapper refl
                  (λ _. Outcome-bind (validate_required-requires tool arguments valid) (λ u present.
                    Outcome-bind (dump_arguments-Genuine lib arguments) (λ json printed. returns (
                      (tool, found, arguments, refl, are_arguments, present, printed),
                      omega (
                        arith,
                        length-drop (length tool_open) text,
                        whitespace-length (drop (length tool_open) text),
                        length-drop (length function_close) after,
                        whitespace-length (drop (length function_close) after),
                        length-drop (length tool_close)
                            (whitespace (drop (length function_close) after)),
                      ),
                    ))))))))

parse_calls-AreCalls :
    (lib : Doubles) (tools : List FunctionTool) (rounds : ℕ) (text : Bytes)
    → All IsValidTool tools
    → starts_with tool_open text ≡ true
    → length text < rounds
    → Outcome
        (λ calls. All (IsCall lib tools) calls × (0 < length calls))
        Genuine
        (parse_calls lib tools rounds text)
unfolding parse_calls is_model_error
parse_calls-AreCalls lib tools zero text h s k = absurd (omega arith)
parse_calls-AreCalls lib tools (suc rounds) text h s k =
    Outcome-bind (parse_call-IsCall lib tools text h s) (λ (call, after) (is_call, shorter).
      let blanks : length (whitespace after) ≤ length after = whitespace-length after in
      elim (Bool-cases (length (whitespace after) == 0)) [
        | inl e ↦ rw e (returns ((is_call, tt), omega arith))
        | inr e ↦ rw e (
            Outcome-guard (starts_with tool_open (whitespace after)) content_after_call refl
              (λ next.
                Outcome-bind
                  (parse_calls-AreCalls lib tools rounds (whitespace after) h next (omega arith))
                  (λ calls (are_calls, some_call). returns ((is_call, are_calls), omega arith))))
      ])

-- What is promised of the output: no call and the text as it is, or calls that are each a tool's, only
-- one unless several are allowed.
abbrev pub IsOutput : Doubles → List FunctionTool → Bool → Bytes → ParsedModelOutput → Type 0
IsOutput lib tools allow_parallel_calls output result =
    ((result.text ≡ output) × (result.function_calls ≡ []))
    ⊎ (All (IsCall lib tools) (result.function_calls)
        × (0 < length (result.function_calls))
        × ((allow_parallel_calls ≡ true) ⊎ (length (result.function_calls) ≡ 1)))

-- For tools that pass the checks of `parse_function_tools`, `parse_tool_calls` is total: it dereferences
-- no null pointer, its loops end, and it returns an output or throws one of the program's errors.
-- An output that it returns has no calls and the text as it is, or it has calls, one only unless
-- parallel calls are allowed. Each call is of a known tool, its arguments have
-- different names and conform to the tool's schemas, none that the tool requires is missing, and
-- the text of the arguments is the printer's.
pub parse_tool_calls-IsOutput :
    (lib : Doubles) (tools : List FunctionTool) (allow_parallel_calls : Bool) (output : Bytes)
    → All IsValidTool tools
    → Outcome
        (IsOutput lib tools allow_parallel_calls output)
        Genuine
        (parse_tool_calls lib tools allow_parallel_calls output)
unfolding parse_tool_calls is_model_error
parse_tool_calls-IsOutput lib tools allow_parallel_calls output h =
    elim (Option-cases (find_text tool_open output)) [
      | inl e ↦ rw (e, parse_tool_calls) (returns (inl (refl, refl)))
      | inr ((before, text), e) ↦
          let (shorter, starts) = find_text-found tool_open output before text e in
          rw (e, parse_tool_calls)
            (Outcome-bind
              (parse_calls-AreCalls lib tools (suc (length text)) text h starts (omega arith))
              (λ calls (are_calls, some_call).
                elim (Bool-cases (not allow_parallel_calls && ltb 1 (length calls))) [
                  | inl f ↦ rw f (throws refl)
                  | inr f ↦ rw f (returns (inr (are_calls, some_call, ground arith)))
                ]))
    ]
