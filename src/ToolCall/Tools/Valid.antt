-- ===== src/ToolCall/Tools/Valid.antt =====
-- src/tool_call.cpp: what `parse_function_tools` promises of the tools that it returns.
use adi.Base.{
  ◌+◌, ◌≤◌, ◌≡◌, refl, ap, subst, true, false, not, List, [], ◌∷◌, ◌++◌, some, leb, length, list_eq,
  arith, Option-cases, inl, inr, All, All-append, list_eq_refl, length-append,
}
use adi.Base.Result.{
  ok, ◌>>◌, guard, Ensures, holds, Ensures-ok, Ensures-of, Ensures-bind, Ensures-guard, Ensures-map,
  Ensures-after,
}
use adi.Base.Text.{NotIn, Distinct, Distinct-snoc}
use adi.Utf8.{Bytes}
use adi.Json.Value.{Json, Items, no_items, item, array_of}
use package.adi.ToolCall.Tools.{
  FunctionTool, valid_name, validate_parameters, make_tool, tool_name, tool_description,
  tool_strict, tool_parameters, is_object, has_type_function, not_an_object, not_a_function,
  strict_not_supported, parse_function_tool, count_items, has_name, parse_tools_from,
  parse_function_tools, duplicate_tool, too_many_tools,
}

-- A tool's name and parameters pass the checks.
abbrev pub IsValidTool : FunctionTool → Type 0
IsValidTool tool = (valid_name (tool.name) ≡ true) × (validate_parameters (tool.parameters) ≡ ok tt)

abbrev pub names : List FunctionTool → List Bytes
names [] = []
names (tool ∷ tools) = tool.name ∷ names tools

names-append : (ts us : List FunctionTool) → names (ts ++ us) ≡ names ts ++ names us
names-append [] us = refl
names-append (t ∷ ts) us = ap (λ ns. t.name ∷ ns) (names-append ts us)

tool_name-valid : (value : Json) → Ensures (λ name. valid_name name ≡ true) (tool_name value)
tool_name-valid value = Ensures-of (tool_name value) (λ name e. unfold tool_name in ground arith)

parse_function_tool-valid : (value : Json) → Ensures IsValidTool (parse_function_tool value)
unfolding parse_function_tool make_tool
parse_function_tool-valid value = Ensures-guard (is_object value) not_an_object (λ _.
    Ensures-guard (has_type_function value) not_a_function (λ _.
      Ensures-bind (tool_name-valid value) (λ name valid.
        Ensures-after (tool_description value) (λ description.
          Ensures-after (tool_strict value) (λ strict.
            Ensures-guard (not strict) strict_not_supported (λ _.
              Ensures-bind (Ensures-of (validate_parameters (tool_parameters value)) (λ u e. e))
                (λ u e. holds (valid, e))))))))

has_name-false :
    (ts : List FunctionTool) (name : Bytes) → has_name ts name ≡ false → NotIn name (names ts)
unfolding has_name
has_name-false [] name h = tt
has_name-false (t ∷ ts) name h = (
  (λ e.
      let same : list_eq (t.name) name ≡ true =
        subst (λ n. list_eq (t.name) n ≡ true) e (list_eq_refl (t.name)) in
      ground arith),
  has_name-false ts name (ground arith),
)

-- What the loop keeps of the tools that it has read.
abbrev pub AreValid : List FunctionTool → Type 0
AreValid tools = All IsValidTool tools × Distinct (names tools)

AreValid-snoc :
    (ts : List FunctionTool) (t : FunctionTool)
    → AreValid ts
    → IsValidTool t
    → has_name ts (t.name) ≡ false
    → AreValid (ts ++ t ∷ [])
AreValid-snoc ts t (valid, distinct) v h = (
  All-append IsValidTool ts (t ∷ []) valid (v, tt),
  rw names-append (Distinct-snoc (t.name) (names ts) distinct (has_name-false ts (t.name) h)),
)

parse_tools_from-valid :
    (result : List FunctionTool) (items : Items)
    → AreValid result
    → Ensures
        (λ tools. AreValid tools × (length tools ≡ length result + count_items items))
        (parse_tools_from result items)
unfolding parse_tools_from count_items
parse_tools_from-valid result no_items h = holds (h, omega arith)
parse_tools_from-valid result (item value values) h =
    Ensures-bind (parse_function_tool-valid value) (λ tool valid.
      Ensures-guard (not (has_name result (tool.name))) duplicate_tool (λ fresh.
        let new : has_name result (tool.name) ≡ false = ground arith in
        let longer : length (result ++ tool ∷ []) ≡ length result + 1 =
          length-append result (tool ∷ []) in
        Ensures-map
          (parse_tools_from-valid (result ++ tool ∷ []) values
            (AreValid-snoc result tool h valid new))
          (λ tools (are_valid, count). (are_valid, omega arith))))

-- If `parse_function_tools` succeeds, it was given an array, it returns one tool for each item and at
-- most 128 of them; each has a valid name and valid parameters, and no two have the same name.
pub parse_function_tools-AreValid :
    (tools : Json) (result : List FunctionTool)
    → parse_function_tools tools ≡ ok result
    → (items : Items) × (array_of tools ≡ some items)
      × (length result ≡ count_items items)
      × (length result ≤ 128)
      × AreValid result
unfolding parse_function_tools
parse_function_tools-AreValid tools result h = elim (Option-cases (array_of tools)) [
  | inl e ↦ absurd (ground arith)
  | inr (items, e) ↦
      let parsed : (guard (leb (count_items items) 128) too_many_tools >> parse_tools_from [] items)
          ≡ ok result =
        ground arith in
      let (few, valid, count) =
        Ensures-ok
          (Ensures-guard (leb (count_items items) 128) too_many_tools (λ few.
            Ensures-map
              {P' = λ tools.
                (leb (count_items items) 128 ≡ true)
                × AreValid tools
                × (length tools ≡ count_items items)}
              (parse_tools_from-valid [] items (tt, tt))
              (λ tools (valid, count). (few, valid, omega arith))))
          parsed in
      (items, e, count, ground arith, valid)
]
