-- ===== src/Json/Reads/Values/Objects.antt =====
-- src/json.cpp: objects, and the whole parser.
use adi.Base.{
  ℕ, zero, suc, ◌-◌, ◌≤◌, ◌<◌, ◌≡◌, ◌≢◌, refl, ap, sym, subst, true, false, not, List, [], ◌∷◌,
  ◌==◌, length, list_eq, take, arith, Bool-cases, inl, inr, All, list_eq_refl, list_eq→eq,
  length-take, length-drop,
}
use adi.Base.Result.{Result, ok, err, ◌>>=◌}
use adi.Base.Outcome.{
  Outcome, returns, throws, Outcome-bind, Outcome-guard, Outcome-map, Outcome-rethrow,
}
use adi.Utf8.{Bytes}
use adi.Json.Value.{Charconv}
use adi.Json.Lexer.{JsonError, out_of_fuel, whitespace, next_is, take_byte, literal, trailing_data}
use adi.Json.Reads.{is_fuel, Genuine, whitespace-length, take_byte-length}
use adi.Base.Text.{codes, NotIn, Distinct}
use adi.Json.Value.{Json, Fields, null, boolean, no_fields, field}
use adi.Json.Parser.{
  maximum_depth, contains, parse_fields, parse_object, dispatch, parse_value, parse_json,
}
use adi.Json.Lexer.{
  expected_value, nesting_exceeds_limit, expected_key, expected_colon, duplicate_key,
  expected_brace,
}
use adi.Json.Reads.Texts.{parse_string-reads, parse_number-reads}
use adi.Json.Reads.Values.{
  field_keys, WellFormed, WellFormedFields, Element, closing, parse_array-reads,
}

-- A key that was not seen, and is not in the rest of its object.
contains-cons :
    (key : Bytes) (keys ks : List Bytes)
    → All (λ k. contains (key ∷ keys) k ≡ false) ks
    → NotIn key ks × All (λ k. contains keys k ≡ false) ks
unfolding contains
contains-cons key keys [] h = (tt, tt)
contains-cons key keys (k ∷ ks) (p, h) =
    let (fresh, rest) = contains-cons key keys ks h in
    let other : list_eq key k ≡ false = ground arith in
    let unseen : contains keys k ≡ false = ground arith in
    ((λ e. different k e other, fresh), (unseen, rest))
  where
    different : (k : Bytes) → k ≡ key → list_eq key k ≡ false → ⊥
    different k e other =
        let same : list_eq key k ≡ true =
          subst (λ n. list_eq key n ≡ true) (sym e) (list_eq_refl key) in
        ground arith

-- The members that are read: their keys differ from those seen and from each other.
abbrev FieldsRead : ℕ → List Bytes → ℕ → Fields × Bytes → Type 0
FieldsRead levels keys bound r =
    WellFormedFields levels r.0
    × Distinct (field_keys r.0)
    × All (λ k. contains keys k ≡ false) (field_keys r.0)
    × (length r.1 < bound)

parse_fields-reads :
    (levels : ℕ) (element : Bytes → Result JsonError (Json × Bytes)) (fuel : ℕ) (keys : List Bytes)
    (rest : Bytes)
    → Element levels element
    → length rest < fuel
    → Outcome (FieldsRead levels keys (length rest)) Genuine (parse_fields element fuel keys rest)
unfolding parse_fields is_fuel WellFormedFields
parse_fields-reads levels element zero keys rest h k = absurd (omega arith)
parse_fields-reads levels element (suc fuel) keys rest h k =
    Outcome-guard (next_is 0x22 (whitespace rest)) expected_key refl (λ _.
      Outcome-bind (parse_string-reads (whitespace rest))
        (λ (key, after_key) (key_valid, key_shorter).
          Outcome-guard ((take_byte b':' after_key).0) expected_colon refl (λ _.
            Outcome-guard (not (contains keys key)) duplicate_key refl (λ fresh.
              Outcome-bind (h (take_byte b':' after_key).1)
                (λ (value, after) (deep, valid, shorter).
                  let blanks : length (whitespace rest) ≤ length rest = whitespace-length rest in
                  let (behind_colon, colon) = take_byte-length b':' after_key in
                  let (kept, strict) = take_byte-length b',' after in
                  let unseen : contains keys key ≡ false = ground arith in
                  elim (Bool-cases ((take_byte b',' after).0)) [
                    | inl comma ↦ rw comma (
                        Outcome-bind
                          (parse_fields-reads levels element fuel (key ∷ keys)
                            (take_byte b',' after).1 h (omega arith))
                          (λ (members, last) (valid_rest, distinct, others, shorter_rest).
                            let (new, unseen_rest) =
                              contains-cons key keys (field_keys members) others in
                            returns (
                              (key_valid, deep, valid, valid_rest),
                              (new, distinct),
                              (unseen, unseen_rest),
                              omega arith,
                            )))
                    | inr comma ↦ rw comma (
                        Outcome-map
                          (closing b'}' (take_byte b',' after).1 (field key value no_fields)
                            expected_brace (length rest) (omega arith) refl)
                          (λ r (e, l). (
                            subst (λ fs. WellFormedFields levels fs) (sym e)
                                (key_valid, deep, valid, tt),
                            subst (λ fs. Distinct (field_keys fs)) (sym e) (tt, tt),
                            subst (λ fs. All (λ k. contains keys k ≡ false) (field_keys fs)) (sym e)
                                (unseen, tt),
                            l,
                          )))
                  ])))))

parse_object-reads :
    (levels : ℕ) (element : Bytes → Result JsonError (Json × Bytes)) (rest : Bytes)
    → Element levels element
    → Outcome
        (λ r. WellFormed levels r.0 × (length r.1 < length rest))
        Genuine
        (parse_object element rest)
unfolding parse_object WellFormed WellFormedFields
parse_object-reads levels element rest h =
    let (a, s) = take_byte-length b'{' rest in
    let (b, t) = take_byte-length b'}' (take_byte b'{' rest).1 in
    elim (Bool-cases ((take_byte b'}' (take_byte b'{' rest).1).0)) [
      | inl e ↦ rw e (returns ((tt, tt), omega arith))
      | inr e ↦ rw e (
          Outcome-bind
            (parse_fields-reads levels element
              (suc (length (take_byte b'}' (take_byte b'{' rest).1).1)) []
              (take_byte b'}' (take_byte b'{' rest).1).1 h (omega arith))
            (λ (members, last) (valid, distinct, fresh, shorter).
              returns ((distinct, valid), omega arith)))
    ]

literal-reads :
    (value rest : Bytes)
    → 0 < length value
    → Outcome (λ after. length after < length rest) Genuine (literal value rest)
unfolding literal is_fuel
literal-reads value rest h = elim (Bool-cases (list_eq (take (length value) rest) value)) [
  | inl e ↦
      let same : length (take (length value) rest) ≡ length value =
        ap length (list_eq→eq (take (length value) rest) value e) in
      rw e
        (returns (omega (arith, length-take (length value) rest, length-drop (length value) rest)))
  | inr e ↦ rw e (throws refl)
]

literal_value :
    (value rest : Bytes) (levels : ℕ) (result : Json)
    → 0 < length value
    → WellFormed levels result
    → Outcome {A = Json × Bytes}
        (λ r. WellFormed levels r.0 × (length r.1 < length rest))
        Genuine
        (literal value rest >>= λ after. ok (result, after))
literal_value value rest levels result h v =
    Outcome-bind (literal-reads value rest h) (λ after l. returns (v, l))

dispatch-reads :
    (lib : Charconv) (levels : ℕ) (element : Bytes → Result JsonError (Json × Bytes)) (c : ℕ)
    (rest : Bytes)
    → Element levels element
    → Outcome
        (λ r. WellFormed levels r.0 × (length r.1 < length rest))
        Genuine
        (dispatch lib element c rest)
unfolding dispatch WellFormed
dispatch-reads lib levels element c rest h = elim (Bool-cases (c == b'n')) [
  | inl e ↦ rw e (literal_value (codes "null") rest levels null (omega arith) tt)
  | inr e1 ↦ elim (Bool-cases (c == b't')) [
    | inl e ↦ rw (e1, e) (literal_value (codes "true") rest levels (boolean true) (omega arith) tt)
    | inr e2 ↦ elim (Bool-cases (c == b'f')) [
      | inl e ↦
          rw (e1, e2, e)
            (literal_value (codes "false") rest levels (boolean false) (omega arith) tt)
      | inr e3 ↦ elim (Bool-cases (c == 0x22)) [
        | inl e ↦
            rw (e1, e2, e3, e)
              (Outcome-bind (parse_string-reads rest) (λ (text, after) (v, l). returns (v, l)))
        | inr e4 ↦ elim (Bool-cases (c == b'[')) [
          | inl e ↦ rw (e1, e2, e3, e4, e) (parse_array-reads levels element rest h)
          | inr e5 ↦ elim (Bool-cases (c == b'{')) [
            | inl e ↦ rw (e1, e2, e3, e4, e5, e) (parse_object-reads levels element rest h)
            | inr e6 ↦
                rw (e1, e2, e3, e4, e5, e6)
                  (Outcome-bind (parse_number-reads lib rest)
                    (λ (value, after) (v, l). returns (v, l)))
          ]
        ]
      ]
    ]
  ]
]

parse_value-reads : (lib : Charconv) (levels : ℕ) → Element levels (parse_value lib levels)
unfolding parse_value is_fuel
parse_value-reads lib zero rest = from_blank (whitespace rest)
  where
    from_blank :
        (w : Bytes)
        → Outcome {A = Json × Bytes}
            (λ r. (1 ≤ 0) × WellFormed (0 - 1) r.0 × (length r.1 < length rest))
            Genuine
            (elim w [ [] ↦ err expected_value | c ∷ after ↦ err nesting_exceeds_limit ])
    from_blank [] = throws refl
    from_blank (c ∷ after) = throws refl
parse_value-reads lib (suc levels) rest =
    from_blank (whitespace rest) (whitespace-length rest) (parse_value-reads lib levels)
  where
    from_blank :
        (w : Bytes)
        → length w ≤ length rest
        → Element levels (parse_value lib levels)
        → Outcome {A = Json × Bytes}
            (λ r. (1 ≤ suc levels) × WellFormed (suc levels - 1) r.0 × (length r.1 < length rest))
            Genuine
            (elim w [
              | [] ↦ err expected_value
              | c ∷ after ↦ dispatch lib (parse_value lib levels) c (c ∷ after)
            ])
    from_blank [] h element = throws refl
    from_blank (c ∷ after) h element =
        let down : suc levels - 1 ≡ levels = omega arith in
        Outcome-map (dispatch-reads lib levels (parse_value lib levels) c (c ∷ after) element)
          (λ r (valid, l).
            (omega arith, subst (λ n. WellFormed n r.0) (sym down) valid, omega arith))

parse_json-reads :
    (lib : Charconv) (input : Bytes)
    → Outcome (WellFormed maximum_depth) Genuine (parse_json lib input)
unfolding parse_json is_fuel
parse_json-reads lib input =
    Outcome-bind (parse_value-reads lib 129 input)
      (λ (value, rest) (deep, valid, l). at_end value valid (whitespace rest))
  where
    at_end :
        (value : Json)
        → WellFormed 128 value
        → (w : Bytes)
        → Outcome
            (WellFormed maximum_depth)
            Genuine
            (elim w [ [] ↦ ok value | c ∷ after ↦ err trailing_data ])
    at_end value valid [] = returns valid
    at_end value valid (c ∷ after) = throws refl

-- The parser is total, and its loops need no more rounds than they are given: whatever the bytes, and
-- whatever the C++ library makes of a number's text, `parse_json` returns a value or throws one
-- of the program's errors. A value that it returns nests at most 128 levels deep, its texts
-- and keys are valid UTF-8, its numbers are finite, and none of its objects has a key twice.
pub parse_json-WellFormed :
    (lib : Charconv) (input : Bytes)
    → Outcome (WellFormed maximum_depth) (λ e. e ≢ out_of_fuel) (parse_json lib input)
parse_json-WellFormed lib input =
    Outcome-rethrow (parse_json-reads lib input) (λ e genuine same. not_fuel e genuine same)
  where
    not_fuel : (e : JsonError) → is_fuel e ≡ false → e ≡ out_of_fuel → ⊥
    not_fuel e genuine same =
        let fuel : is_fuel out_of_fuel ≡ true = unfold is_fuel in refl in
        let same' : is_fuel e ≡ true = subst (λ e. is_fuel e ≡ true) (sym same) fuel in cc
