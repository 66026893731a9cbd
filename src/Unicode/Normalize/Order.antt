-- ===== src/Unicode/Normalize/Order.antt =====
-- src/unicode.cpp: the classes in the canonical order.
use adi.Base.{ℕ, ◌≤◌, ◌≡◌, ◌⊎◌, true, false, ◌||◌, List, [], ◌∷◌, leb, ◌==◌, if-either, arith, inl}
use adi.Unicode.Data.{UnicodeData, combining_class_of}
use package.adi.Unicode.Normalize.{swap_back, insert_ordered, order_from}

-- In reverse: behind a code point stands one of no greater class, or a starter, or it is a starter
-- itself.
abbrev pub Follows : UnicodeData → ℕ → ℕ → Type 0
Follows tables previous codepoint =
    (combining_class_of tables codepoint ≡ 0)
    ⊎ (combining_class_of tables previous ≤ combining_class_of tables codepoint)

abbrev pub FollowsHead : UnicodeData → ℕ → List ℕ → Type 0
FollowsHead tables c [] = Unit
FollowsHead tables c (p ∷ ps) = Follows tables p c

abbrev pub IsBackOrdered : UnicodeData → List ℕ → Type 0
IsBackOrdered tables [] = Unit
IsBackOrdered tables (c ∷ ps) = FollowsHead tables c ps × IsBackOrdered tables ps

stays :
    (tables : UnicodeData) (c p : ℕ)
    → combining_class_of tables p == 0
        || leb (combining_class_of tables p) (combining_class_of tables c)
      ≡ true
    → Follows tables p c
stays tables c p e = ground arith

passes :
    (tables : UnicodeData) (c p : ℕ)
    → combining_class_of tables p == 0
        || leb (combining_class_of tables p) (combining_class_of tables c)
      ≡ false
    → Follows tables c p
passes tables c p e = ground arith

swap_back-Follows :
    (tables : UnicodeData) (c p : ℕ) (before : List ℕ)
    → Follows tables c p
    → FollowsHead tables p before
    → FollowsHead tables p (swap_back tables c before)
unfolding swap_back
swap_back-Follows tables c p [] h k = h
swap_back-Follows tables c p (q ∷ before) h k = ground arith

swap_back-IsBackOrdered :
    (tables : UnicodeData) (c : ℕ) (before : List ℕ)
    → IsBackOrdered tables before
    → IsBackOrdered tables (swap_back tables c before)
unfolding swap_back
swap_back-IsBackOrdered tables c [] h = (h, h)
swap_back-IsBackOrdered tables c (p ∷ before) (k, h) =
    if-either (IsBackOrdered tables)
      (combining_class_of tables p == 0
        || leb (combining_class_of tables p) (combining_class_of tables c))
      (λ e. (stays tables c p e, (k, h)))
      (λ e. (
        swap_back-Follows tables c p before (passes tables c p e) k,
        swap_back-IsBackOrdered tables c before h,
      ))

starts :
    (tables : UnicodeData) (c : ℕ) (before : List ℕ)
    → (combining_class_of tables c == 0) ≡ true
    → FollowsHead tables c before
starts tables c [] e = tt
starts tables c (p ∷ before) e = inl (ground arith)

pub order_from-IsBackOrdered :
    (tables : UnicodeData) (before rest : List ℕ)
    → IsBackOrdered tables before
    → IsBackOrdered tables (order_from tables before rest)
unfolding order_from insert_ordered
order_from-IsBackOrdered tables before [] h = h
order_from-IsBackOrdered tables before (c ∷ rest) h =
    order_from-IsBackOrdered tables (insert_ordered tables c before) rest (
      if-either (IsBackOrdered tables) (combining_class_of tables c == 0)
        (λ e. (starts tables c before e, h)) (λ e. swap_back-IsBackOrdered tables c before h))
