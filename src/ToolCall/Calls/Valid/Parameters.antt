-- ===== src/ToolCall/Calls/Valid/Parameters.antt =====
-- src/tool_call.cpp: a call's parameters are read to their end, and each one is checked.
use adi.Base.{
  ℕ, zero, suc, ◌≤◌, ◌<◌, ◌≡◌, refl, true, false, not, [], ◌∷◌, some, length, drop, arith,
  Bool-cases, Option-cases, inl, inr, length-drop,
}
use adi.Base.Outcome.{Outcome, returns, throws, Outcome-bind, Outcome-guard, Outcome-map}
use adi.Utf8.{Bytes}
use adi.Json.Value.{Fields}
use adi.Json.Lexer.{whitespace}
use adi.Json.Reads.{whitespace-length}
use adi.ToolCall.Tools.{FunctionTool, valid_name}
use package.adi.ToolCall.Calls.{
  Doubles, malformed_call, parameter_open, parameter_close, starts_with, find_text, parse_tag_name,
  has_key, strip_front, strip_back, parse_parameter, parse_parameters, repeated_parameter,
}
use adi.ToolCall.Calls.Valid.{
  is_model_error, Genuine, AreArguments, typed_argument-conforms, AreArguments-add,
}

starts_with-length :
    (prefix text : Bytes) → starts_with prefix text ≡ true → length prefix ≤ length text
unfolding starts_with
starts_with-length [] text h = omega arith
starts_with-length (c ∷ prefix) [] h = ground arith
starts_with-length (c ∷ prefix) (d ∷ text) h = ground (arith, starts_with-length prefix text)

-- The text from the occurrence on is a part of the text, and begins with what was sought.
pub find_text-found :
    (needle text before found : Bytes)
    → find_text needle text ≡ some (before, found)
    → (length found ≤ length text) × (starts_with needle found ≡ true)
unfolding find_text
find_text-found needle [] before found h = elim (Bool-cases (starts_with needle [])) [
  | inl e ↦ ground arith
  | inr e ↦ absurd (ground arith)
]
find_text-found needle (c ∷ text) before found h =
    elim (Bool-cases (starts_with needle (c ∷ text))) [
      | inl e ↦ let same : found ≡ c ∷ text = ground arith in rw same (omega arith, e)
      | inr e ↦ elim (Option-cases (find_text needle text)) [
        | inl f ↦ absurd (ground arith)
        | inr ((b, later), f) ↦
            let (shorter, starts) = find_text-found needle text b later f in
            let same : found ≡ later = ground arith in rw same (omega arith, starts)
      ]
    ]

pub parse_tag_name-reads :
    (opening text : Bytes)
    → 0 < length opening
    → Outcome (λ r. length r.1 < length text) Genuine (parse_tag_name opening text)
unfolding parse_tag_name is_model_error
parse_tag_name-reads opening text p =
    Outcome-guard (starts_with opening text) malformed_call refl (λ s.
      let whole : length opening ≤ length text = starts_with-length opening text s in
      elim (Option-cases (find_text (b'>' ∷ []) (drop (length opening) text))) [
        | inl e ↦ rw e (throws refl)
        | inr ((name, after), e) ↦
            let (found, _) =
              find_text-found (b'>' ∷ []) (drop (length opening) text) name after e in
            elim (Bool-cases (valid_name name)) [
              | inl v ↦
                  rw (e, v)
                    (returns
                      (omega (arith, length-drop 1 after, length-drop (length opening) text)))
              | inr v ↦ rw (e, v) (throws refl)
            ]
      ])

parse_parameter-reads :
    (lib : Doubles) (tool : FunctionTool) (arguments : Fields) (text : Bytes)
    → AreArguments lib tool arguments
    → Outcome
        (λ r. AreArguments lib tool r.0 × (length r.1 < length text))
        Genuine
        (parse_parameter lib tool arguments text)
unfolding parse_parameter is_model_error
parse_parameter-reads lib tool arguments text h =
    Outcome-bind (parse_tag_name-reads parameter_open text (omega arith)) (λ (name, after) shorter.
      Outcome-guard (not (has_key arguments name)) repeated_parameter refl (λ fresh.
        let new : has_key arguments name ≡ false = ground arith in
        elim (Option-cases (find_text parameter_close after)) [
          | inl e ↦ rw e (throws refl)
          | inr ((value, last), e) ↦
              let (found, _) = find_text-found parameter_close after value last e in
              let less : length (whitespace (drop (length parameter_close) last)) < length text =
                omega (
                  arith,
                  whitespace-length (drop (length parameter_close) last),
                  length-drop (length parameter_close) last,
                ) in
              rw e (
                Outcome-bind
                  (typed_argument-conforms lib tool name (strip_back (strip_front value)))
                  (λ argument typed.
                    returns (AreArguments-add lib tool arguments name argument h new typed, less)))
        ]))

pub parse_parameters-reads :
    (lib : Doubles) (tool : FunctionTool) (rounds : ℕ) (arguments : Fields) (text : Bytes)
    → AreArguments lib tool arguments
    → length text < rounds
    → Outcome
        (λ r. AreArguments lib tool r.0 × (length r.1 ≤ length text))
        Genuine
        (parse_parameters lib tool rounds arguments text)
unfolding parse_parameters is_model_error
parse_parameters-reads lib tool zero arguments text h k = absurd (omega arith)
parse_parameters-reads lib tool (suc rounds) arguments text h k =
    elim (Bool-cases (starts_with parameter_open text)) [
      | inr e ↦ rw e (returns (h, omega arith))
      | inl e ↦ rw e (
          Outcome-bind (parse_parameter-reads lib tool arguments text h)
            (λ (longer, after) (valid, shorter).
              Outcome-map (parse_parameters-reads lib tool rounds longer after valid (omega arith))
                (λ r (v, l). (v, omega arith))))
    ]
