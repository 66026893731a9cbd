-- ===== src/Json/Reads/Values.antt =====
-- src/json.cpp: the values that the parser accepts.
pub mod Objects
use adi.Base.{
  ℕ, zero, suc, ◌-◌, ◌≤◌, ◌<◌, ◌≡◌, refl, sym, subst, true, List, [], ◌∷◌, if◌then◌else◌, length,
  arith, Bool-cases, inl, inr,
}
use adi.Base.Result.{Result, ok, err, ◌>>=◌, ◌>>◌}
use adi.Base.Outcome.{Outcome, returns, throws, Outcome-bind, Outcome-map}
use adi.Utf8.{Bytes, valid_utf8}
use adi.Json.Value.{is_finite}
use adi.Json.Lexer.{JsonError, take_byte}
use adi.Json.Reads.{is_fuel, Genuine, take_byte-length}
use adi.Base.Text.{Distinct}
use adi.Json.Value.{
  Json, Items, Fields, null, boolean, number, string, array, object, no_items, item, no_fields,
  field,
}
use adi.Json.Parser.{parse_items, parse_array}
use adi.Json.Lexer.{expected_bracket}

abbrev pub field_keys : Fields → List Bytes
field_keys no_fields = []
field_keys (field key value fs) = key ∷ field_keys fs

-- At most `levels` arrays and objects are nested below the value; texts and keys are valid UTF-8,
-- numbers are finite, and no object has a key twice.
unfoldable mutual
  pub WellFormed : ℕ → Json → Type 0
  WellFormed levels null = Unit
  WellFormed levels (boolean b) = Unit
  WellFormed levels (number x) = is_finite x ≡ true
  WellFormed levels (string s) = valid_utf8 s ≡ true
  WellFormed levels (array xs) = WellFormedItems levels xs
  WellFormed levels (object fs) = Distinct (field_keys fs) × WellFormedFields levels fs

  pub WellFormedItems : ℕ → Items → Type 0
  WellFormedItems levels no_items = Unit
  WellFormedItems levels (item x xs) =
      (1 ≤ levels) × WellFormed (levels - 1) x × WellFormedItems levels xs

  pub WellFormedFields : ℕ → Fields → Type 0
  WellFormedFields levels no_fields = Unit
  WellFormedFields levels (field key x fs) =
      (valid_utf8 key ≡ true)
      × (1 ≤ levels)
      × WellFormed (levels - 1) x
      × WellFormedFields levels fs

-- A parser of the values one level further down: it ends, takes input, and what it gives is
-- well-formed.
abbrev pub Element : ℕ → (Bytes → Result JsonError (Json × Bytes)) → Type 0
Element levels element =
    (rest : Bytes)
    → Outcome (λ r. (1 ≤ levels) × WellFormed (levels - 1) r.0 × (length r.1 < length rest)) Genuine
        (element rest)

-- The byte that closes a list behind its last element.
pub closing :
    {A : Type 0} (value : ℕ) (rest : Bytes) (a : A) (e : JsonError) (bound : ℕ)
    → length rest < bound
    → Genuine e
    → Outcome {A = A × Bytes}
        (λ r. (r.0 ≡ a) × (length r.1 < bound))
        Genuine
        (if (take_byte value rest).0 then ok (a, (take_byte value rest).1) else err e)
closing value rest a e bound h g =
    let (shorter, strict) = take_byte-length value rest in
    elim (Bool-cases ((take_byte value rest).0)) [
      | inl t ↦ rw t (returns (refl, omega arith))
      | inr t ↦ rw t (throws g)
    ]

parse_items-reads :
    (levels : ℕ) (element : Bytes → Result JsonError (Json × Bytes)) (fuel : ℕ) (rest : Bytes)
    → Element levels element
    → length rest < fuel
    → Outcome
        (λ r. WellFormedItems levels r.0 × (length r.1 < length rest))
        Genuine
        (parse_items element fuel rest)
unfolding parse_items is_fuel WellFormedItems
parse_items-reads levels element zero rest h k = absurd (omega arith)
parse_items-reads levels element (suc fuel) rest h k =
    Outcome-bind (h rest) (λ (value, after) (deep, valid, shorter).
      let (kept, strict) = take_byte-length b',' after in
      elim (Bool-cases ((take_byte b',' after).0)) [
        | inl comma ↦ rw comma (
            Outcome-bind
              (parse_items-reads levels element fuel (take_byte b',' after).1 h (omega arith))
              (λ (values, last) (valid_rest, shorter_rest).
                returns ((deep, valid, valid_rest), omega arith)))
        | inr comma ↦ rw comma (
            Outcome-map
              (closing b']' (take_byte b',' after).1 (item value no_items) expected_bracket
                (length rest) (omega arith) refl)
              (λ r (e, l). (subst (λ xs. WellFormedItems levels xs) (sym e) (deep, valid, tt), l)))
      ])

pub parse_array-reads :
    (levels : ℕ) (element : Bytes → Result JsonError (Json × Bytes)) (rest : Bytes)
    → Element levels element
    → Outcome
        (λ r. WellFormed levels r.0 × (length r.1 < length rest))
        Genuine
        (parse_array element rest)
unfolding parse_array WellFormed WellFormedItems
parse_array-reads levels element rest h =
    let (a, s) = take_byte-length b'[' rest in
    let (b, t) = take_byte-length b']' (take_byte b'[' rest).1 in
    elim (Bool-cases ((take_byte b']' (take_byte b'[' rest).1).0)) [
      | inl e ↦ rw e (returns (tt, omega arith))
      | inr e ↦ rw e (
          Outcome-bind
            (parse_items-reads levels element
              (suc (length (take_byte b']' (take_byte b'[' rest).1).1))
              (take_byte b']' (take_byte b'[' rest).1).1 h (omega arith))
            (λ (values, last) (valid, shorter). returns (valid, omega arith)))
    ]
