-- ===== src/Tokenizer/Split/Whole.antt =====
-- src/tokenizer.cpp: the segments of a text are the whole text.
use adi.Base.{
  ℕ, zero, suc, ◌+◌, ◌≤◌, ◌≡◌, refl, ap, sym, subst, ◌∙◌, Bool, true, false, ◌||◌, ◌&&◌, List, [],
  ◌∷◌, ◌++◌, Option, none, some, ltb, ◌==◌, if-either, length, list_eq, drop, arith, Bool-cases,
  Option-cases, inl, inr, map, All, list_eq_refl, append-nil, length-drop, concat,
}
use adi.ToolCall.Calls.Valid.Parameters.{find_text-found}
use adi.ToolCall.Calls.{find_text, starts_with}
use package.adi.Tokenizer.{Text}
use package.adi.Tokenizer.Split.{
  Segment, normal, special, Occurrence, earlier, occurrence_of, first_special, normal_segment,
  segments_from, segments,
}

-- The text of a segment.
abbrev pub segment_text : Segment → Text
segment_text (normal text) = text
segment_text (special text id) = text

abbrev pub is_listed : List (Text × ℕ) → Text → ℕ → Bool
is_listed [] text id = false
is_listed ((other, other_id) ∷ specials) text id =
    list_eq other text && other_id == id || is_listed specials text id

-- A special token is one of the list; a normal segment is not empty.
abbrev pub IsSegment : List (Text × ℕ) → Segment → Type 0
IsSegment specials (normal text) = 1 ≤ length text
IsSegment specials (special text id) = is_listed specials text id ≡ true

zero_add : (n : ℕ) → 0 + n ≡ n
zero_add n = omega arith

suc_add : (m n : ℕ) → suc m + n ≡ suc (m + n)
suc_add m n = omega arith

starts_with-split :
    (prefix text : Text)
    → starts_with prefix text ≡ true
    → text ≡ prefix ++ drop (length prefix) text
unfolding starts_with
starts_with-split [] text h = refl
starts_with-split (c ∷ prefix) [] h = absurd (ground arith)
starts_with-split (c ∷ prefix) (d ∷ text) h =
    let same : c ≡ d = ground arith in
    let rest = starts_with-split prefix text (ground arith) in
    ap (λ t. d ∷ t) rest ∙ ap (λ e. e ∷ prefix ++ drop (length prefix) text) (sym same)

find_text-front :
    (needle text front found : Text)
    → find_text needle text ≡ some (front, found)
    → text ≡ front ++ found
unfolding find_text
find_text-front needle [] front found h = elim (Bool-cases (starts_with needle [])) [
  | inl e ↦
      (let f : front ≡ [] = ground arith in let g : found ≡ [] = ground arith in rw (f, g) refl)
  | inr e ↦ absurd (ground arith)
]
find_text-front needle (c ∷ text) front found h =
    elim (Bool-cases (starts_with needle (c ∷ text))) [
      | inl e ↦
          (let f : front ≡ [] = ground arith in
            let g : found ≡ c ∷ text = ground arith in rw (f, g) refl)
      | inr e ↦ elim (Option-cases (find_text needle text)) [
        | inl f ↦ absurd (ground arith)
        | inr ((shorter, later), f) ↦
            let k = find_text-front needle text shorter later f in
            let f' : front ≡ c ∷ shorter = ground arith in
            let g : found ≡ later = ground arith in rw (f', g) (ap (λ t. c ∷ t) k)
      ]
    ]

drop-front : (n : ℕ) (xs ys : Text) → drop (length xs + n) (xs ++ ys) ≡ drop n ys
drop-front n [] ys = ap (λ k. drop k ys) (zero_add n)
drop-front n (x ∷ xs) ys =
    ap (λ k. drop k (x ∷ xs ++ ys)) (suc_add (length xs) n) ∙ drop-front n xs ys

-- An occurrence in the text of a token that is listed and not empty.
abbrev IsOccurrence : List (Text × ℕ) → Text → Occurrence → Type 0
IsOccurrence specials text (front, token, id) =
    (text ≡ front ++ (token ++ drop (length front + length token) text))
    × (1 ≤ length token)
    × (is_listed specials token id ≡ true)

abbrev IsOccurrenceIfAny : List (Text × ℕ) → Text → Option Occurrence → Type 0
IsOccurrenceIfAny specials text none = Unit
IsOccurrenceIfAny specials text (some occurrence) = IsOccurrence specials text occurrence

abbrev IsCandidate : List (Text × ℕ) → Text × ℕ → Type 0
IsCandidate specials (token, id) = (1 ≤ length token) × (is_listed specials token id ≡ true)

earlier-IsOccurrence :
    (specials : List (Text × ℕ)) (text : Text) (best other : Option Occurrence)
    → IsOccurrenceIfAny specials text best
    → IsOccurrenceIfAny specials text other
    → IsOccurrenceIfAny specials text (earlier best other)
unfolding earlier
earlier-IsOccurrence specials text none other h k = k
earlier-IsOccurrence specials text (some best) none h k = h
earlier-IsOccurrence specials text (some (front, token, id)) (some (front', token', id')) h k =
    if-either (IsOccurrenceIfAny specials text) (ltb (length front') (length front)) (λ _. k)
      (λ _. h)

occurrence_of-IsOccurrence :
    (specials : List (Text × ℕ)) (text token : Text) (id : ℕ)
    → IsCandidate specials (token, id)
    → IsOccurrenceIfAny specials text (occurrence_of text (token, id))
unfolding occurrence_of
occurrence_of-IsOccurrence specials text token id (positive, listed) =
    elim (Option-cases (find_text token text)) [
      | inl e ↦ rw (e, occurrence_of) tt
      | inr ((front, found), e) ↦
          let whole = find_text-front token text front found e in
          let (_, starts) = find_text-found token text front found e in
          let rest : drop (length front + length token) text ≡ drop (length token) found =
            ap (λ t. drop (length front + length token) t) whole
            ∙ drop-front (length token) front found in
          let split = starts_with-split token found starts in
          rw (e, occurrence_of)
            (
              whole ∙ ap (λ t. front ++ t) (split ∙ ap (λ t. token ++ t) (sym rest)),
              positive,
              listed,
            )
    ]

first_special-IsOccurrence :
    (specials : List (Text × ℕ)) (text : Text) (best : Option Occurrence)
    (candidates : List (Text × ℕ))
    → IsOccurrenceIfAny specials text best
    → All (IsCandidate specials) candidates
    → IsOccurrenceIfAny specials text (first_special text best candidates)
unfolding first_special
first_special-IsOccurrence specials text best [] h cs = h
first_special-IsOccurrence specials text best ((token, id) ∷ candidates) h (c, cs) =
    first_special-IsOccurrence specials text (earlier best (occurrence_of text (token, id)))
      candidates
      (earlier-IsOccurrence specials text best (occurrence_of text (token, id)) h
        (occurrence_of-IsOccurrence specials text token id c))
      cs

-- The segments of a text.
abbrev AreSegments : List (Text × ℕ) → Text → List Segment → Type 0
AreSegments specials text parts =
    (concat (map segment_text parts) ≡ text) × All (IsSegment specials) parts

normal-AreSegments :
    (specials : List (Text × ℕ)) (front rest : Text) (parts : List Segment)
    → 1 ≤ length front
    → concat (map segment_text parts) ≡ rest
    → All (IsSegment specials) parts
    → AreSegments specials (front ++ rest) (normal front ∷ parts)
normal-AreSegments specials front rest parts h whole all = (ap (λ t. front ++ t) whole, (h, all))

normal_segment-AreSegments :
    (specials : List (Text × ℕ)) (front rest : Text) (parts : List Segment)
    → AreSegments specials rest parts
    → AreSegments specials (front ++ rest) (normal_segment front parts)
normal_segment-AreSegments specials [] rest parts h = h
normal_segment-AreSegments specials (c ∷ front) rest parts (whole, all) =
    if-either (AreSegments specials (c ∷ front ++ rest)) (length (c ∷ front) == 0)
      (λ e. absurd (ground arith))
      (λ _. normal-AreSegments specials (c ∷ front) rest parts (omega arith) whole all)

segments_from-AreSegments :
    (specials : List (Text × ℕ)) (fuel : ℕ) (text : Text)
    → All (IsCandidate specials) specials
    → length text ≤ fuel
    → AreSegments specials text (segments_from specials fuel text)
unfolding segments_from
segments_from-AreSegments specials zero [] c h = (refl, tt)
segments_from-AreSegments specials zero (x ∷ text) c h = absurd (omega arith)
segments_from-AreSegments specials (suc fuel) [] c h = (refl, tt)
segments_from-AreSegments specials (suc fuel) (x ∷ text) c h =
    let found = first_special-IsOccurrence specials (x ∷ text) none specials tt c in
    elim (Option-cases (first_special (x ∷ text) none specials)) [
      | inl e ↦ rw (e, segments_from) (append-nil (x ∷ text), ((omega arith), tt))
      | inr ((front, token, id), e) ↦
          let (split, positive, listed) = subst (IsOccurrenceIfAny specials (x ∷ text)) e found in
          let rest = drop (length front + length token) (x ∷ text) in
          let size = length-drop (length front + length token) (x ∷ text) in
          let (whole, all) = segments_from-AreSegments specials fuel rest c (omega arith) in
          rw (e, segments_from)
            (subst
              (λ t.
                AreSegments specials t
                  (normal_segment front (special token id ∷ segments_from specials fuel rest)))
              (sym split)
              (normal_segment-AreSegments specials front (token ++ rest)
                (special token id ∷ segments_from specials fuel rest)
                (ap (λ t. token ++ t) whole, (listed, all))))
    ]

abbrev pub IsNonEmpty : Text × ℕ → Type 0
IsNonEmpty (token, id) = 1 ≤ length token

candidates :
    (specials some_of : List (Text × ℕ))
    → All IsNonEmpty some_of
    → ((token : Text) (id : ℕ)
        → is_listed some_of token id ≡ true
        → is_listed specials token id ≡ true)
    → All (IsCandidate specials) some_of
candidates specials [] h k = tt
candidates specials ((token, id) ∷ rest) (p, h) k =
    let own : is_listed ((token, id) ∷ rest) token id ≡ true =
      let s = list_eq_refl token in ground arith in
    (
      (p, k token id own),
      candidates specials rest h
          (λ other other_id l. k other other_id (let later = l in ground arith)),
    )

-- Where no special token is empty, the segments that a text is encoded by are the whole text when they are
-- put together again; those between special tokens are not empty, and the others are listed.
pub segments-concat :
    (specials : List (Text × ℕ)) (text : Text)
    → All IsNonEmpty specials
    → (concat (map segment_text (segments specials text)) ≡ text)
      × All (IsSegment specials) (segments specials text)
unfolding segments
segments-concat specials text h =
    segments_from-AreSegments specials (length text) text
      (candidates specials specials h (λ token id l. l)) (omega arith)
