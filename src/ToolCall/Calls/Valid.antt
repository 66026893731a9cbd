-- ===== src/ToolCall/Calls/Valid.antt =====
-- src/tool_call.cpp: what `parse_tool_calls` promises of the calls that it returns.
pub mod Parameters
pub mod Total
use adi.Base.{
  ℕ, ◌≡◌, refl, ap, subst, Bool, true, false, ◌&&◌, List, [], ◌∷◌, ◌++◌, Option, none, some,
  if◌then◌else◌, list_eq, arith, Bool-cases, Option-cases, inl, inr, All, list_eq_refl,
}
use adi.Base.Result.{ok, ◌>>=◌, ◌>>◌, Result-cases}
use adi.Base.Text.{codes, NotIn, Distinct, Distinct-snoc}
use adi.Base.Outcome.{Outcome, returns, throws, Outcome-guard, Outcome-map}
use adi.Utf8.{Bytes}
use adi.Json.Value.{
  Json, Items, Fields, null, string, object, no_items, item, no_fields, field, find, string_of,
  array_of, object_of,
}
use adi.Json.Parser.{parse_json}
use adi.Json.Reads.Values.{field_keys}
use adi.ToolCall.Tools.{FunctionTool}
use package.adi.ToolCall.Calls.{
  CallError, Doubles, FunctionCall, null_dereference, out_of_rounds, find_tool, property_schema,
  is_closed, is_some, has_type, argument_of_type, argument_of_schema, typed_argument, has_key,
  add_field, dump_arguments, schema_not_an_object,
}

-- No error of the program: a null pointer's dereference, or a loop of the model out of rounds.
pub is_model_error : CallError → Bool
is_model_error null_dereference = true
is_model_error out_of_rounds = true
is_model_error _ = false

abbrev pub Genuine : CallError → Type 0
Genuine e = is_model_error e ≡ false

-- An argument is a text where no schema is given, and has the type that its schema names.
pub conforms : (ℕ → Bool) → Option Json → Json → Bool
conforms is_integral none value = is_some (string_of value)
conforms is_integral (some schema) value = elim (find (codes "type") schema) [
  | none ↦ true
  | some type ↦ elim (string_of type) [
    | none ↦ false
    | some t ↦
        if list_eq t (codes "string")
        then is_some (string_of value)
        else has_type is_integral t value
  ]
]

pub all_conform : (ℕ → Bool) → FunctionTool → Fields → Bool
all_conform is_integral tool no_fields = true
all_conform is_integral tool (field name value rest) =
    conforms is_integral (property_schema tool name) value && all_conform is_integral tool rest

-- The names of the parameters that a tool requires.
pub item_names : Items → List Bytes
item_names no_items = []
item_names (item name names) = elim (string_of name) [
  | none ↦ item_names names
  | some s ↦ s ∷ item_names names
]

pub required_of : FunctionTool → List Bytes
required_of tool = elim (find (codes "required") (tool.parameters)) [
  | none ↦ []
  | some required ↦ elim (array_of required) [ none ↦ [] | some names ↦ item_names names ]
]

abbrev pub AreArguments : Doubles → FunctionTool → Fields → Type 0
AreArguments lib tool arguments =
    Distinct (field_keys arguments) × (all_conform (lib.is_integral) tool arguments ≡ true)

-- The call is of a known tool: its arguments have different names and conform to their schemas, none
-- that the tool requires is missing, and the text of the arguments is the printer's.
abbrev pub IsCall : Doubles → List FunctionTool → FunctionCall → Type 0
IsCall lib tools call =
    (tool : FunctionTool) × (find_tool tools (call.name) ≡ ok tool)
    × (arguments : Fields) × (call.arguments ≡ object arguments)
    × AreArguments lib tool arguments
    × All (λ name. has_key arguments name ≡ true) (required_of tool)
    × (dump_arguments lib arguments ≡ ok (call.arguments_json))

argument_of_type-conforms :
    (lib : Doubles) (t value : Bytes)
    → Outcome
        (λ argument.
          (if list_eq t (codes "string")
            then is_some (string_of argument)
            else has_type (lib.is_integral) t argument)
          ≡ true)
        Genuine
        (argument_of_type lib t value)
unfolding argument_of_type is_model_error string_of
argument_of_type-conforms lib t value = elim (Bool-cases (list_eq t (codes "string"))) [
  | inl e ↦ rw e (returns refl)
  | inr e ↦ elim (Result-cases (parse_json (lib.charconv) value)) [
    | inr (x, f) ↦ rw (e, f) (throws refl)
    | inl (parsed, f) ↦ elim (Bool-cases (has_type (lib.is_integral) t parsed)) [
      | inl g ↦ rw (e, f, g) (returns g)
      | inr g ↦ rw (e, f, g) (throws refl)
    ]
  ]
]

argument_of_schema-conforms :
    (lib : Doubles) (schema : Json) (value : Bytes)
    → Outcome
        (λ argument. conforms (lib.is_integral) (some schema) argument ≡ true)
        Genuine
        (argument_of_schema lib schema value)
unfolding argument_of_schema is_model_error conforms
argument_of_schema-conforms lib schema value =
    Outcome-guard (is_some (object_of schema)) schema_not_an_object refl (λ _.
      elim (Option-cases (find (codes "type") schema)) [
        | inl e ↦ elim (Result-cases (parse_json (lib.charconv) value)) [
          | inl (parsed, f) ↦ rw (e, f) (returns {a = parsed} (rw (e, conforms) refl))
          | inr (x, f) ↦ rw (e, f) (returns {a = string value} (rw (e, conforms) refl))
        ]
        | inr (type, e) ↦ elim (Option-cases (string_of type)) [
          | inl f ↦ rw (e, f) (throws refl)
          | inr (t, f) ↦
              rw (e, f)
                (Outcome-map (argument_of_type-conforms lib t value)
                  (λ argument c. rw (e, conforms) (rw f c)))
        ]
      ])

pub typed_argument-conforms :
    (lib : Doubles) (tool : FunctionTool) (name value : Bytes)
    → Outcome
        (λ argument. conforms (lib.is_integral) (property_schema tool name) argument ≡ true)
        Genuine
        (typed_argument lib tool name value)
unfolding typed_argument is_model_error conforms string_of
typed_argument-conforms lib tool name value = elim (Option-cases (property_schema tool name)) [
  | inr (schema, e) ↦ rw (e, typed_argument) (argument_of_schema-conforms lib schema value)
  | inl e ↦ elim (Bool-cases (is_closed tool)) [
    | inl f ↦ rw (e, typed_argument) (rw f (throws refl))
    | inr f ↦ rw (e, typed_argument) (rw f (returns refl))
  ]
]

has_key-false : (fs : Fields) (key : Bytes) → has_key fs key ≡ false → NotIn key (field_keys fs)
unfolding has_key
has_key-false no_fields key h = tt
has_key-false (field k x fs) key h = (
  (λ e.
      let same : list_eq k key ≡ true = subst (λ n. list_eq k n ≡ true) e (list_eq_refl k) in
      ground arith),
  has_key-false fs key (ground arith),
)

keys-add :
    (fs : Fields) (key : Bytes) (x : Json)
    → field_keys (add_field fs key x) ≡ field_keys fs ++ key ∷ []
unfolding add_field
keys-add no_fields key x = refl
keys-add (field k y fs) key x = ap (λ ks. k ∷ ks) (keys-add fs key x)

all_conform-add :
    (is_integral : ℕ → Bool) (tool : FunctionTool) (fs : Fields) (key : Bytes) (x : Json)
    → all_conform is_integral tool fs ≡ true
    → conforms is_integral (property_schema tool key) x ≡ true
    → all_conform is_integral tool (add_field fs key x) ≡ true
unfolding add_field all_conform
all_conform-add is_integral tool no_fields key x h k = ground arith
all_conform-add is_integral tool (field k' y fs) key x h k =
    ground (arith, all_conform-add is_integral tool fs key x)

pub AreArguments-add :
    (lib : Doubles) (tool : FunctionTool) (fs : Fields) (key : Bytes) (x : Json)
    → AreArguments lib tool fs
    → has_key fs key ≡ false
    → conforms (lib.is_integral) (property_schema tool key) x ≡ true
    → AreArguments lib tool (add_field fs key x)
AreArguments-add lib tool fs key x (distinct, typed) fresh h = (
  rw keys-add (Distinct-snoc key (field_keys fs) distinct (has_key-false fs key fresh)),
  all_conform-add (lib.is_integral) tool fs key x typed h,
)
