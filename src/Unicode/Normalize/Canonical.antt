-- ===== src/Unicode/Normalize/Canonical.antt =====
-- src/unicode.cpp: the canonical order as a whole.
use adi.Base.{
  ℕ, ◌<◌, ◌≡◌, ◌≢◌, refl, sym, ap, subst, ◌∙◌, ◌↔◌, true, ◌||◌, List, [], ◌∷◌, ◌==◌, ltb, arith,
  Bool-cases, inl, inr,
}
use mathlib.Core.List.{reverse, reverse-reverse}
use adi.Unicode.Data.{UnicodeData, combining_class_of}
use adi.Unicode.Normalize.{order_from, canonical_order}
use adi.Unicode.Normalize.Order.{IsBackOrdered, order_from-IsBackOrdered}
use adi.Unicode.Normalize.Kept.{kept, is_kept, kept-in, kept-out, kept-reverse_aux, order_from-kept}

abbrev head_of : List ℕ → ℕ
head_of [] = 0
head_of (c ∷ cs) = c

abbrev tail_of : List ℕ → List ℕ
tail_of [] = []
tail_of (c ∷ cs) = cs

-- The first one is a starter, or there is none.
abbrev StartsSegment : UnicodeData → List ℕ → Type 0
StartsSegment tables [] = Unit
StartsSegment tables (c ∷ cs) = combining_class_of tables c ≡ 0

-- In reverse: behind the marks of a segment, all of a smaller class than is kept, its starter is kept.
smaller_marks :
    (tables : UnicodeData) (class c : ℕ) (cs : List ℕ)
    → IsBackOrdered tables (c ∷ cs)
    → combining_class_of tables c ≢ 0
    → combining_class_of tables c < class
    → StartsSegment tables (kept tables class (c ∷ cs))
unfolding kept
smaller_marks tables class c [] h mark less = rw (kept-out tables class c [] (ground arith)) tt
smaller_marks tables class c (d ∷ cs) (k, h) mark less =
    rw (kept-out tables class c (d ∷ cs) (ground arith))
      (elim (Bool-cases (combining_class_of tables d == 0)) [
        | inl e ↦ rw (kept-in tables class d cs (ground arith)) (ground arith)
        | inr e ↦ smaller_marks tables class d cs h (ground arith) (ground arith)
      ])

module _ (tables : UnicodeData) where
  abbrev KeepAlike : List ℕ → List ℕ → Type 0
  KeepAlike xs ys = (class : ℕ) → kept tables class xs ≡ kept tables class ys

  same_head :
      (class c d : ℕ) (cs ds : List ℕ)
      → is_kept tables class c ≡ true
      → is_kept tables class d ≡ true
      → kept tables class (c ∷ cs) ≡ kept tables class (d ∷ ds)
      → c ≡ d
  same_head class c d cs ds e f same =
      ap head_of (sym (kept-in tables class c cs e) ∙ same ∙ kept-in tables class d ds f)

  not_smaller :
      (c d : ℕ) (cs ds : List ℕ)
      → IsBackOrdered tables (c ∷ cs)
      → combining_class_of tables c ≢ 0
      → combining_class_of tables c < combining_class_of tables d
      → KeepAlike (c ∷ cs) (d ∷ ds)
      → ⊥
  not_smaller c d cs ds h mark less same =
      let class = combining_class_of tables d in
      let own = kept-in tables class d ds (ground arith) in
      let starts =
        subst (StartsSegment tables) (same class ∙ own)
          (smaller_marks tables class c cs h mark less) in
      ground arith

  heads :
      (c d : ℕ) (cs ds : List ℕ)
      → IsBackOrdered tables (c ∷ cs)
      → IsBackOrdered tables (d ∷ ds)
      → KeepAlike (c ∷ cs) (d ∷ ds)
      → c ≡ d
  heads c d cs ds h k same =
      let a = combining_class_of tables c in
      let b = combining_class_of tables d in
      elim (Bool-cases (a == 0 || (b == 0 || a == b))) [
        | inl e ↦ elim (Bool-cases (a == 0)) [
          | inl f ↦ same_head b c d cs ds (ground arith) (ground arith) (same b)
          | inr f ↦ same_head a c d cs ds (ground arith) (ground arith) (same a)
        ]
        | inr e ↦ elim (Bool-cases (ltb a b)) [
          | inl f ↦ absurd (not_smaller c d cs ds h (ground arith) (ground arith) same)
          | inr f ↦
              absurd
                (not_smaller d c ds cs k (ground arith) (ground arith) (λ class. sym (same class)))
        ]
      ]

  tails : (c : ℕ) (cs ds : List ℕ) → KeepAlike (c ∷ cs) (c ∷ ds) → KeepAlike cs ds
  tails c cs ds same class = elim (Bool-cases (is_kept tables class c)) [
    | inl e ↦
        ap tail_of (sym (kept-in tables class c cs e) ∙ same class ∙ kept-in tables class c ds e)
    | inr e ↦ sym (kept-out tables class c cs e) ∙ same class ∙ kept-out tables class c ds e
  ]

  nothing_kept : (c : ℕ) (cs : List ℕ) → KeepAlike [] (c ∷ cs) → ⊥
  unfolding kept
  nothing_kept c cs same =
      let class = combining_class_of tables c in
      let e = same class ∙ kept-in tables class c cs (ground arith) in cc

  -- In reverse: two lists in order that keep the same of each class are the same.
  in_order_unique :
      (xs ys : List ℕ)
      → IsBackOrdered tables xs
      → IsBackOrdered tables ys
      → KeepAlike xs ys
      → xs ≡ ys
  in_order_unique [] [] h k same = refl
  in_order_unique [] (d ∷ ds) h k same = absurd (nothing_kept d ds same)
  in_order_unique (c ∷ cs) [] h k same = absurd (nothing_kept c cs (λ class. sym (same class)))
  in_order_unique (c ∷ cs) (d ∷ ds) h k same =
      let first = heads c d cs ds h k same in
      let alike = tails c cs ds (subst (λ x. KeepAlike (c ∷ cs) (x ∷ ds)) (sym first) same) in
      ap (λ x. x ∷ cs) first ∙ ap (λ zs. d ∷ zs) (in_order_unique cs ds h.1 k.1 alike)

  kept-reverse :
      (class : ℕ) (xs : List ℕ) → kept tables class (reverse xs) ≡ reverse (kept tables class xs)
  unfolding kept
  kept-reverse class xs = kept-reverse_aux tables class xs []

  -- The list in this order: within a segment no mark stands behind one of a greater class, and for each
  -- class, the starters and the marks of that class stand as they did.
  abbrev pub IsCanonicalOrder : List ℕ → List ℕ → Type 0
  IsCanonicalOrder decomposed ordered =
      IsBackOrdered tables (reverse ordered) × KeepAlike ordered decomposed

  order_from-KeepAlike :
      (decomposed : List ℕ) → KeepAlike (order_from tables [] decomposed) (reverse decomposed)
  unfolding kept
  order_from-KeepAlike decomposed class =
      order_from-kept tables class [] decomposed ∙ sym (kept-reverse class decomposed)

  canonical_order-IsCanonicalOrder :
      (decomposed : List ℕ) → IsCanonicalOrder decomposed (canonical_order tables decomposed)
  unfolding canonical_order
  canonical_order-IsCanonicalOrder decomposed =
      let loop = order_from tables [] decomposed in
      (
        subst (IsBackOrdered tables) (sym (reverse-reverse loop))
            (order_from-IsBackOrdered tables [] decomposed tt),
        λ class.
            kept-reverse class loop
            ∙ ap reverse (order_from-KeepAlike decomposed class ∙ kept-reverse class decomposed)
            ∙ reverse-reverse (kept tables class decomposed),
      )

  -- The canonical order of a list is the one list in which no mark stands behind one of a greater class
  -- without a starter between them, and in which, for each class, the starters and the marks of that
  -- class stand in the order of the list.
  pub canonical_order_iff :
      (decomposed ordered : List ℕ)
      → (canonical_order tables decomposed ≡ ordered) ↔ IsCanonicalOrder decomposed ordered
  canonical_order_iff decomposed ordered = (
    (λ e. subst (IsCanonicalOrder decomposed) e (canonical_order-IsCanonicalOrder decomposed)),
    (λ (h, same).
        let (in_order, alike) = canonical_order-IsCanonicalOrder decomposed in
        let backwards =
          in_order_unique (reverse (canonical_order tables decomposed)) (reverse ordered) in_order h
            (λ class.
              kept-reverse class (canonical_order tables decomposed)
              ∙ ap reverse (alike class ∙ sym (same class))
              ∙ sym (kept-reverse class ordered)) in
        sym (reverse-reverse (canonical_order tables decomposed))
        ∙ ap reverse backwards
        ∙ reverse-reverse ordered),
  )
