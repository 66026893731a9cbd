-- ===== src/Unicode/Normalize/Hangul.antt =====
-- src/unicode.cpp: the arithmetic of the Hangul syllables.
use adi.Base.{
  ℕ, ◌+◌, ◌-◌, ◌*◌, ◌/◌, ◌%◌, ◌≤◌, ◌<◌, ◌≡◌, sym, subst, ap, ◌∙◌, ◌↔◌, List, [], ◌∷◌, ◌==◌, arith,
  Bool-cases, inl, inr,
}
use adi.Unicode.Data.{
  UnicodeData, compose_pair, decomposed_of, s_base, s_count, l_base, l_count, v_base, v_count,
  t_base, t_count,
}

abbrev pub IsSyllable : ℕ → Type 0
IsSyllable s = (s_base ≤ s) × (s < s_base + s_count)

abbrev IsLead : ℕ → Type 0
IsLead l = (l_base ≤ l) × (l < l_base + l_count)

abbrev IsVowel : ℕ → Type 0
IsVowel v = (v_base ≤ v) × (v < v_base + v_count)

abbrev IsTrail : ℕ → Type 0
IsTrail t = (t_base < t) × (t < t_base + t_count)

-- A leading consonant, a vowel and, of three letters, a trailing consonant, which `compose_pair` puts
-- together to `s`, from the first one on.
pub data Spells (tables : UnicodeData) : List ℕ → ℕ → Type 0 where
  two :
      {l v s : ℕ}
      → IsLead l
      → IsVowel v
      → compose_pair tables l v ≡ s
      → Spells tables (l ∷ v ∷ []) s
  three :
      {l v t s : ℕ}
      → IsLead l
      → IsVowel v
      → IsTrail t
      → compose_pair tables (compose_pair tables l v) t ≡ s
      → Spells tables (l ∷ v ∷ t ∷ []) s

compose_letters :
    (tables : UnicodeData) (l v : ℕ)
    → IsLead l
    → IsVowel v
    → compose_pair tables l v ≡ s_base + (l - l_base) * 588 + (v - v_base) * t_count
unfolding compose_pair
compose_letters tables l v h k = ground arith

compose_trail :
    (tables : UnicodeData) (s t : ℕ)
    → IsSyllable s
    → (s - s_base) % t_count ≡ 0
    → IsTrail t
    → compose_pair tables s t ≡ s + t - t_base
unfolding compose_pair
compose_trail tables s t h e k = ground arith

abbrev lead_letter : ℕ → ℕ
lead_letter s = l_base + (s - s_base) / 588

abbrev vowel_letter : ℕ → ℕ
vowel_letter s = v_base + (s - s_base) % 588 / t_count

abbrev trail_letter : ℕ → ℕ
trail_letter s = t_base + (s - s_base) % t_count

in_two :
    (tables : UnicodeData) (s : ℕ)
    → IsSyllable s
    → (s - s_base) % t_count ≡ 0
    → decomposed_of tables s ≡ lead_letter s ∷ vowel_letter s ∷ []
unfolding decomposed_of
in_two tables s h e = ground arith

in_three :
    (tables : UnicodeData) (s : ℕ)
    → IsSyllable s
    → 0 < (s - s_base) % t_count
    → decomposed_of tables s ≡ lead_letter s ∷ vowel_letter s ∷ trail_letter s ∷ []
unfolding decomposed_of
in_three tables s h e = ground arith

decomposed_of-Spells :
    (tables : UnicodeData) (s : ℕ) → IsSyllable s → Spells tables (decomposed_of tables s) s
decomposed_of-Spells tables s h =
    let lead : IsLead (lead_letter s) = ((omega arith), (omega arith)) in
    let vowel : IsVowel (vowel_letter s) = ((omega arith), (omega arith)) in
    let both = compose_letters tables (lead_letter s) (vowel_letter s) lead vowel in
    elim (Bool-cases ((s - s_base) % t_count == 0)) [
      | inl e ↦
          let no_trail : (s - s_base) % t_count ≡ 0 = ground arith in
          rw (in_two tables s h no_trail) (two lead vowel (both ∙ omega arith))
      | inr e ↦
          let some_trail : 0 < (s - s_base) % t_count = ground arith in
          let trail : IsTrail (trail_letter s) = ((omega arith), (omega arith)) in
          let first = s - (s - s_base) % t_count in
          let start : compose_pair tables (lead_letter s) (vowel_letter s) ≡ first =
            both ∙ omega arith in
          rw (in_three tables s h some_trail) (
            three lead vowel trail (
              ap (λ x. compose_pair tables x (trail_letter s)) start
              ∙ (compose_trail tables first (trail_letter s) ((omega arith), (omega arith))
                    (omega arith) trail
                  ∙ omega arith)))
    ]

Spells-decomposed_of :
    (tables : UnicodeData) (letters : List ℕ) (s : ℕ)
    → Spells tables letters s
    → decomposed_of tables s ≡ letters
Spells-decomposed_of tables _ _ (two {l = l} {v = v} {s = s} lead vowel e) =
    let sum : s ≡ s_base + (l - l_base) * 588 + (v - v_base) * t_count =
      sym e ∙ compose_letters tables l v lead vowel in
    let first : lead_letter s ≡ l = omega arith in
    let second : vowel_letter s ≡ v = omega arith in
    in_two tables s ((omega arith), (omega arith)) (omega arith)
    ∙ ap (λ x. x ∷ vowel_letter s ∷ []) first
    ∙ ap (λ x. l ∷ x ∷ []) second
Spells-decomposed_of tables _ _ (three {l = l} {v = v} {t = t} {s = s} lead vowel trail e) =
    let start = s_base + (l - l_base) * 588 + (v - v_base) * t_count in
    let sum : s ≡ start + t - t_base =
      sym e
      ∙ ap (λ x. compose_pair tables x t) (compose_letters tables l v lead vowel)
      ∙ compose_trail tables start t ((omega arith), (omega arith)) (omega arith) trail in
    let first : lead_letter s ≡ l = omega arith in
    let second : vowel_letter s ≡ v = omega arith in
    let third : trail_letter s ≡ t = omega arith in
    in_three tables s ((omega arith), (omega arith)) (omega arith)
    ∙ ap (λ x. x ∷ vowel_letter s ∷ trail_letter s ∷ []) first
    ∙ ap (λ x. l ∷ x ∷ trail_letter s ∷ []) second
    ∙ ap (λ x. l ∷ v ∷ x ∷ []) third

-- A Hangul syllable is decomposed into a leading consonant, a vowel and, if there are three letters, a
-- trailing consonant, which `compose_pair` puts together to the syllable again from the first one on;
-- and no other two or three such letters give the syllable. It holds whatever the tables hold.
pub decomposed_of_iff :
    (tables : UnicodeData) (letters : List ℕ) (s : ℕ)
    → IsSyllable s
    → (decomposed_of tables s ≡ letters) ↔ Spells tables letters s
decomposed_of_iff tables letters s h = (
  (λ e. subst (λ xs. Spells tables xs s) e (decomposed_of-Spells tables s h)),
  (λ spelt. Spells-decomposed_of tables letters s spelt),
)
