-- ===== src/Unicode/Normalize/Kept.antt =====
-- src/unicode.cpp: the starters and the marks of each class, which the canonical order leaves as they are.
use adi.Base.{
  ℕ, ◌≡◌, refl, sym, ap, ◌∙◌, Bool, true, false, ◌||◌, ◌&&◌, List, [], ◌∷◌, leb, ◌==◌,
  if◌then◌else◌, arith, Bool-cases, inl, inr,
}
use mathlib.Core.List.{reverse_aux}
use adi.Unicode.Data.{UnicodeData, combining_class_of}
use package.adi.Unicode.Normalize.{swap_back, insert_ordered, order_from}

-- The starters and the marks of one class.
unfoldable pub kept : UnicodeData → ℕ → List ℕ → List ℕ
kept tables class [] = []
kept tables class (c ∷ cs) =
    if combining_class_of tables c == 0 || combining_class_of tables c == class
    then c ∷ kept tables class cs
    else kept tables class cs

module _ (tables : UnicodeData) (class : ℕ) where
  abbrev pub is_kept : ℕ → Bool
  is_kept c = combining_class_of tables c == 0 || combining_class_of tables c == class

  pub kept-in :
      (c : ℕ) (cs : List ℕ)
      → is_kept c ≡ true
      → kept tables class (c ∷ cs) ≡ c ∷ kept tables class cs
  unfolding kept
  kept-in c cs e = rw (kept, e) (λ i. c ∷ kept tables class cs)

  pub kept-out :
      (c : ℕ) (cs : List ℕ) → is_kept c ≡ false → kept tables class (c ∷ cs) ≡ kept tables class cs
  unfolding kept
  kept-out c cs e = rw (kept, e) (λ i. kept tables class cs)

  -- Lists with the same code points kept have them with a further one in front too.
  kept-cons :
      (c : ℕ) (xs ys : List ℕ)
      → kept tables class xs ≡ kept tables class ys
      → kept tables class (c ∷ xs) ≡ kept tables class (c ∷ ys)
  kept-cons c xs ys same = elim (Bool-cases (is_kept c)) [
    | inl e ↦ kept-in c xs e ∙ ap (λ zs. c ∷ zs) same ∙ sym (kept-in c ys e)
    | inr e ↦ kept-out c xs e ∙ same ∙ sym (kept-out c ys e)
  ]

  -- Marks of different classes are not both kept.
  kept-swap :
      (c p : ℕ) (cs : List ℕ)
      → is_kept c && is_kept p ≡ false
      → kept tables class (p ∷ c ∷ cs) ≡ kept tables class (c ∷ p ∷ cs)
  kept-swap c p cs h = elim (Bool-cases (is_kept c)) [
    | inl e ↦
        let out : is_kept p ≡ false = ground arith in
        kept-out p (c ∷ cs) out ∙ kept-cons c cs (p ∷ cs) (sym (kept-out p cs out))
    | inr e ↦ kept-cons p (c ∷ cs) cs (kept-out c cs e) ∙ sym (kept-out c (p ∷ cs) e)
  ]

  swap_back-kept :
      (c : ℕ) (before : List ℕ)
      → (combining_class_of tables c == 0) ≡ false
      → kept tables class (swap_back tables c before) ≡ kept tables class (c ∷ before)
  unfolding swap_back
  swap_back-kept c [] h = refl
  swap_back-kept c (p ∷ before) h =
      elim (Bool-cases (
        combining_class_of tables p == 0
        || leb (combining_class_of tables p) (combining_class_of tables c))) [
          | inl e ↦ rw (swap_back, e) refl
          | inr e ↦
              rw (swap_back, e)
                (kept-cons p (swap_back tables c before) (c ∷ before) (swap_back-kept c before h)
                  ∙ kept-swap c p before (ground arith))
        ]

  insert_ordered-kept :
      (c : ℕ) (before : List ℕ)
      → kept tables class (insert_ordered tables c before) ≡ kept tables class (c ∷ before)
  unfolding insert_ordered
  insert_ordered-kept c before = elim (Bool-cases (combining_class_of tables c == 0)) [
    | inl e ↦ rw (insert_ordered, e) refl
    | inr e ↦ rw (insert_ordered, e) (swap_back-kept c before e)
  ]

  pub kept-reverse_aux :
      (xs ys : List ℕ)
      → kept tables class (reverse_aux xs ys)
        ≡ reverse_aux (kept tables class xs) (kept tables class ys)
  unfolding kept
  kept-reverse_aux [] ys = refl
  kept-reverse_aux (x ∷ xs) ys = kept-reverse_aux xs (x ∷ ys) ∙ elim (Bool-cases (is_kept x)) [
    | inl e ↦
        ap (reverse_aux (kept tables class xs)) (kept-in x ys e)
        ∙ ap (λ zs. reverse_aux zs (kept tables class ys)) (sym (kept-in x xs e))
    | inr e ↦
        ap (reverse_aux (kept tables class xs)) (kept-out x ys e)
        ∙ ap (λ zs. reverse_aux zs (kept tables class ys)) (sym (kept-out x xs e))
  ]

  -- What the loop has in front of its position, is in reverse what it has passed.
  pub order_from-kept :
      (before rest : List ℕ)
      → kept tables class (order_from tables before rest)
        ≡ reverse_aux (kept tables class rest) (kept tables class before)
  unfolding order_from kept
  order_from-kept before [] = refl
  order_from-kept before (c ∷ rest) =
      order_from-kept (insert_ordered tables c before) rest
      ∙ ap (reverse_aux (kept tables class rest)) (insert_ordered-kept c before)
      ∙ sym (kept-reverse_aux rest (c ∷ before))
      ∙ kept-reverse_aux (c ∷ rest) before
